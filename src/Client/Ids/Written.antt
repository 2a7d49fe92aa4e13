-- ===== src/Client/Ids/Written.antt =====
-- How an id is written that packages/contract-client/src/domain.ts has read and writes again: in lower case.
use Prim.Native.Char.{code}
use Prim.Native.String.{char_at}
use text.Mathlib.TextEquality.{Char-path}
use stellar_journey.Base.{
  ℕ, zero, suc, ◌+◌, ◌*◌, ◌/◌, ◌%◌, ◌<◌, ◌≡◌, ◌↔◌, refl, sym, ap, ◌∙◌, subst, String, Bool, true,
  not, ◌&&◌, Option, none, some, List, [], ◌∷◌, arith, ltb, leb, ◌==◌, ==_iff, and-left, and-right,
  length, codes, map, if◌then◌else◌,
}
use stellar_journey.Shared.HexId.{hex_digit, and_digit, hex_digits, hex_id32}
use stellar_journey.Client.Ids.{
  hex_digits_text, id_to_hex, bytes_of, hex_to_id, with_bytes, all_below, all_below_lem,
}

abbrev pub is_lower : ℕ → Bool
is_lower c = not (leb b'A' c && leb c b'F')

-- None of the digits is a capital.
unfoldable pub are_lower : List ℕ → Bool
are_lower [] = true
are_lower (c ∷ cs) = is_lower c && are_lower cs

-- The code of a digit as it is written.
abbrev written : ℕ → ℕ
written d = if ltb d 10 then d + 48 else d + 87

sixteen_written : all_below 16 (λ d. code (char_at hex_digits_text d) == written d) ≡ true
unfolding all_below
sixteen_written = refl

code_lem : (d : ℕ) → d < 16 → code (char_at hex_digits_text d) ≡ written d
code_lem d lt = (==_iff _ _).0 (all_below_lem 16 _ sixteen_written d lt)

hex_digit_lem :
    (c d : ℕ) → hex_digit c ≡ some d → (d < 16) × ((written d ≡ c) ↔ (is_lower c ≡ true))
hex_digit_lem c d h = ground arith

unfoldable all_small : List ℕ → Bool
all_small [] = true
all_small (d ∷ ds) = ltb d 16 && all_small ds

abbrev head_or : ℕ → List ℕ → ℕ
head_or n [] = n
head_or n (x ∷ xs) = x

abbrev rest_of : List ℕ → List ℕ
rest_of [] = []
rest_of (x ∷ xs) = xs

some_inj : {A : Type 0} {a b : A} → some a ≡ some b → a ≡ b
some_inj h = ground arith

and_digit_inv :
    (o : Option ℕ) (p : Option (List ℕ)) (ds : List ℕ)
    → and_digit o p ≡ some ds
    → (d : ℕ) × ((rest : List ℕ) × ((o ≡ some d) × ((p ≡ some rest) × (d ∷ rest ≡ ds))))
and_digit_inv none p ds h = ground arith
and_digit_inv (some d) none ds h = ground arith
and_digit_inv (some d) (some rest) ds h = (d, (rest, (refl, (refl, ground arith))))

hex_digits-small : (cs ds : List ℕ) → hex_digits cs ≡ some ds → all_small ds ≡ true
unfolding hex_digits all_small
hex_digits-small [] ds h = ground arith
hex_digits-small (c ∷ cs) ds h =
    let (d, (rest, (e, (tail, same)))) = and_digit_inv (hex_digit c) (hex_digits cs) ds h in
    let small : ltb d 16 ≡ true = ground (arith, (hex_digit_lem c d e).0) in
    subst (λ l. all_small l ≡ true) same (rw small (hex_digits-small cs rest tail))

hex_digits-length : (cs ds : List ℕ) → hex_digits cs ≡ some ds → length ds ≡ length cs
unfolding hex_digits
hex_digits-length [] ds h = ground arith
hex_digits-length (c ∷ cs) ds h =
    let (d, (rest, (e, (tail, same)))) = and_digit_inv (hex_digit c) (hex_digits cs) ds h in
    subst (λ l. length l ≡ suc (length cs)) same (ap suc (hex_digits-length cs rest tail))

written_iff :
    (cs ds : List ℕ) → hex_digits cs ≡ some ds → (map written ds ≡ cs) ↔ (are_lower cs ≡ true)
unfolding hex_digits are_lower
written_iff [] ds h =
    subst (λ l. (map written l ≡ []) ↔ (are_lower [] ≡ true)) (some_inj h) (λ _. refl, λ _. refl)
written_iff (c ∷ cs) ds h =
    let (d, (rest, (e, (tail, same)))) = and_digit_inv (hex_digit c) (hex_digits cs) ds h in
    let here = (hex_digit_lem c d e).1 in
    let there = written_iff cs rest tail in
    subst (λ l. (map written l ≡ c ∷ cs) ↔ (is_lower c && are_lower cs ≡ true)) same
      (
        λ w. both _ _ (here.0 (ap (head_or 0) w)) (there.0 (ap rest_of w)),
        λ lower.
            rw (here.1 (and-left _ _ lower), there.1 (and-right (is_lower c) (are_lower cs) lower))
              refl,
      )
  where
    both : (a b : Bool) → a ≡ true → b ≡ true → (a && b) ≡ true
    both a b h k = rw (h, k) refl

codes-id_to_hex :
    (n : ℕ) (ds : List ℕ)
    → length ds ≡ 2 * n
    → all_small ds ≡ true
    → codes (id_to_hex (bytes_of ds)) ≡ map written ds
unfolding id_to_hex bytes_of all_small
codes-id_to_hex n [] size small = refl
codes-id_to_hex n (d ∷ []) size small = absurd (odd n size)
  where
    odd : (n : ℕ) → 1 ≡ 2 * n → ⊥
    odd n e = omega (arith, e)
codes-id_to_hex zero (h ∷ l ∷ ds) size small = absurd (omega (arith, size))
codes-id_to_hex (suc n) (h ∷ l ∷ ds) size small =
    let high : h < 16 = ground (arith, and-left (ltb h 16) _ small) in
    let after : (ltb l 16 && all_small ds) ≡ true = and-right (ltb h 16) _ small in
    let low : l < 16 = ground (arith, and-left (ltb l 16) _ after) in
    let first : (h * 16 + l) / 16 ≡ h = omega (arith, low) in
    let second : (h * 16 + l) % 16 ≡ l = omega (arith, low) in
    rw
      (
        first,
        second,
        code_lem h high,
        code_lem l low,
        codes-id_to_hex n ds (omega (arith, size)) (and-right (ltb l 16) _ after),
      )
      refl

codes_inj : (s t : String) → codes s ≡ codes t → s ≡ t
codes_inj String.[] String.[] h = refl
codes_inj String.[] (String.◌∷◌ d t) h = ground (arith, h)
codes_inj (String.◌∷◌ c s) String.[] h = ground (arith, h)
codes_inj (String.◌∷◌ c s) (String.◌∷◌ d t) h =
    rw (Char-path c d (ap (head_or 0) h), codes_inj s t (ap rest_of h)) refl

with_bytes_inv :
    (o : Option (List ℕ)) (bytes : List ℕ)
    → with_bytes o ≡ some bytes
    → (ds : List ℕ) × ((o ≡ some ds) × (bytes_of ds ≡ bytes))
with_bytes_inv none bytes h = ground arith
with_bytes_inv (some ds) bytes h = (ds, (refl, some_inj h))

hex_id32_inv :
    (text : String) (ds : List ℕ)
    → hex_id32 text ≡ some ds
    → (length (codes text) ≡ 64) × (hex_digits (codes text) ≡ some ds)
unfolding hex_id32
hex_id32_inv text ds h = ground (arith, h)

-- An id that is read and written again is the text that it was exactly where that text has no capital digit.
pub id_to_hex-hex_to_id :
    (text : String) (bytes : List ℕ)
    → hex_to_id text ≡ some bytes
    → (id_to_hex bytes ≡ text) ↔ (are_lower (codes text) ≡ true)
unfolding hex_to_id
id_to_hex-hex_to_id text bytes h =
    let (ds, (read, same)) = with_bytes_inv (hex_id32 text) bytes h in
    let (size, digits) = hex_id32_inv text ds read in
    let shown =
      codes-id_to_hex 32 ds (hex_digits-length (codes text) ds digits ∙ size)
        (hex_digits-small (codes text) ds digits) in
    let written = written_iff (codes text) ds digits in
    subst (λ b. (id_to_hex b ≡ text) ↔ (are_lower (codes text) ≡ true)) same
      (
        λ e. written.0 (sym shown ∙ ap codes e),
        λ lower. codes_inj (id_to_hex (bytes_of ds)) text (shown ∙ written.1 lower),
      )
