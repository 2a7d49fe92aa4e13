-- ===== src/Client/Ids.antt =====
-- packages/contract-client/src/domain.ts: `idToHex` and `hexToId`. An id is the list of its bytes.
pub mod Written
use Prim.Native.Char.{code}
use Prim.Native.String.{char_at}
use stellar_journey.Base.{
  ℕ, zero, suc, inl, inr, Bool-cases, ◌+◌, ◌*◌, ◌/◌, ◌%◌, ◌<◌, ◌≡◌, refl, sym, ap, ◌∙◌, String,
  Bool, true, false, ◌&&◌, Option, none, some, List, [], ◌∷◌, arith, ltb, ◌==◌, and-left, and-right,
  length, codes, ==_iff,
}
use stellar_journey.Shared.HexId.{hex_digit, hex_digits, hex_id32}

abbrev pub hex_digits_text : String
hex_digits_text = "0123456789abcdef"

-- `Buffer.from(id).toString("hex")`.
unfoldable pub id_to_hex : List ℕ → String
id_to_hex [] = ""
id_to_hex (b ∷ bytes) =
    String.◌∷◌ (char_at hex_digits_text (b / 16))
      (String.◌∷◌ (char_at hex_digits_text (b % 16)) (id_to_hex bytes))

-- The bytes of digits, two by two.
unfoldable pub bytes_of : List ℕ → List ℕ
bytes_of (high ∷ low ∷ digits) = (high * 16 + low) ∷ bytes_of digits
bytes_of _ = []

abbrev pub with_bytes : Option (List ℕ) → Option (List ℕ)
with_bytes none = none
with_bytes (some digits) = some (bytes_of digits)

-- `none` where it throws.
unfoldable pub hex_to_id : String → Option (List ℕ)
unfolding bytes_of
hex_to_id hex = with_bytes (hex_id32 hex)

-- A test that passes for every number below a bound.
unfoldable all_below : ℕ → (ℕ → Bool) → Bool
all_below zero p = true
all_below (suc n) p = p n && all_below n p

all_below_lem : (n : ℕ) (p : ℕ → Bool) → all_below n p ≡ true → (d : ℕ) → d < n → p d ≡ true
unfolding all_below
all_below_lem zero p h d lt = absurd (omega (arith, lt))
all_below_lem (suc n) p h d lt = elim (Bool-cases (d == n)) [
  | inl same ↦ rw ((==_iff d n).0 same) (and-left _ _ h)
  | inr apart ↦ all_below_lem n p (and-right _ _ h) d (ground (arith, lt, ==_iff d n))
]

abbrev reads : ℕ → Option ℕ → Bool
reads d none = false
reads d (some e) = d == e

sixteen : all_below 16 (λ d. reads d (hex_digit (code (char_at hex_digits_text d)))) ≡ true
unfolding all_below
sixteen = refl

digit_lem : (d : ℕ) → d < 16 → hex_digit (code (char_at hex_digits_text d)) ≡ some d
digit_lem d lt =
    read (hex_digit (code (char_at hex_digits_text d))) (all_below_lem 16 _ sixteen d lt)
  where
    read : (o : Option ℕ) → reads d o ≡ true → o ≡ some d
    read none h = ground arith
    read (some e) h = ap some (sym ((==_iff d e).0 h))

-- Every byte of an id is below 256.
unfoldable pub are_bytes : List ℕ → Bool
are_bytes [] = true
are_bytes (b ∷ bytes) = ltb b 256 && are_bytes bytes

-- The digits of bytes.
unfoldable nibbles : List ℕ → List ℕ
nibbles [] = []
nibbles (b ∷ bytes) = (b / 16) ∷ (b % 16) ∷ nibbles bytes

digits-id_to_hex :
    (bytes : List ℕ)
    → are_bytes bytes ≡ true
    → hex_digits (codes (id_to_hex bytes)) ≡ some (nibbles bytes)
unfolding hex_digits id_to_hex are_bytes nibbles
digits-id_to_hex [] h = refl
digits-id_to_hex (b ∷ bytes) h =
    let small : b < 256 = ground (arith, and-left (ltb b 256) (are_bytes bytes) h) in
    rw
      (
        digit_lem (b / 16) (omega (arith, small)),
        digit_lem (b % 16) (omega arith),
        digits-id_to_hex bytes (and-right (ltb b 256) (are_bytes bytes) h),
      )
      refl

length-id_to_hex : (bytes : List ℕ) → length (codes (id_to_hex bytes)) ≡ 2 * length bytes
unfolding id_to_hex
length-id_to_hex [] = refl
length-id_to_hex (b ∷ bytes) = rw (length-id_to_hex bytes) (omega arith)

bytes_of-nibbles : (bytes : List ℕ) → bytes_of (nibbles bytes) ≡ bytes
unfolding bytes_of nibbles
bytes_of-nibbles [] = refl
bytes_of-nibbles (b ∷ bytes) =
    let whole : (b / 16) * 16 + b % 16 ≡ b = omega arith in rw (whole, bytes_of-nibbles bytes) refl

-- An id of 32 bytes that is written in hexadecimal is read back as the same bytes.
pub hex_to_id-id_to_hex :
    (bytes : List ℕ)
    → length bytes ≡ 32
    → are_bytes bytes ≡ true
    → hex_to_id (id_to_hex bytes) ≡ some bytes
unfolding hex_to_id hex_id32
hex_to_id-id_to_hex bytes size h =
    let size_text : (length (codes (id_to_hex bytes)) == 64) ≡ true =
      (==_iff _ _).1 (length-id_to_hex bytes ∙ omega (arith, size)) in
    rw (size_text, digits-id_to_hex bytes h) (ap some (bytes_of-nibbles bytes))
