-- ===== src/Shared/UrlGuard/Blocks.antt =====
-- The blocked IPv4 addresses as blocks of the address space.
use stellar_journey.Base.{
  ℕ, ◌+◌, ◌*◌, ◌/◌, ◌<◌, ◌≡◌, refl, sym, ap, Bool, true, false, ◌&&◌, ◌||◌, List, [], ◌∷◌, ◌++◌,
  arith, leb, ◌==◌, some, split, split-++, split-lacks, lacks, and-left, and-right, and-intro,
}
use stellar_journey.Shared.Money.{Units, dot, is_digit, to_string, all_digits}
use stellar_journey.Shared.Money.RoundTrip.{
  all_digits-to_string, value-to_string, is_number-to_string,
}
use stellar_journey.Shared.UrlGuard.{is_private_octets, octet, is_private_or_reserved_ipv4, dotted}

-- A block: the addresses that share the bits in front of its last `width`.
pub record Block : Type 0 where
  pub network : ℕ
  pub size : ℕ

abbrev pub address_of : ℕ → ℕ → ℕ → ℕ → ℕ
address_of a b c d = a * 16777216 + b * 65536 + c * 256 + d

abbrev pub block : ℕ → ℕ → ℕ → Block
block a b size = record { network = address_of a b 0 0; size = size }

abbrev pub in_block : ℕ → Block → Bool
in_block address k = address / k.size == k.network / k.size

-- 127/8, 10/8, 172.16/12, 192.168/16, 169.254/16, 100.64/10, 0/8 and 224/3.
abbrev pub blocked_blocks : List Block
blocked_blocks =
    block 127 0 16777216
    ∷ block 10 0 16777216
    ∷ block 172 16 1048576
    ∷ block 192 168 65536
    ∷ block 169 254 65536
    ∷ block 100 64 4194304
    ∷ block 0 0 16777216
    ∷ block 224 0 536870912
    ∷ []

abbrev pub in_any : ℕ → List Block → Bool
in_any address [] = false
in_any address (k ∷ ks) = in_block address k || in_any address ks

regroup :
    (p q r s t u v w : Bool)
    → (p || q || r || s || t || u || v || w)
      ≡ (p || (q || (r || (s || (t || (u || (v || (w || false))))))))
regroup true q r s t u v w = refl
regroup false true r s t u v w = refl
regroup false false true s t u v w = refl
regroup false false false true t u v w = refl
regroup false false false false true u v w = refl
regroup false false false false false true v w = refl
regroup false false false false false false true w = refl
regroup false false false false false false false true = refl
regroup false false false false false false false false = refl

bool_eq : (x y : Bool) → (x ≡ true → y ≡ true) → (y ≡ true → x ≡ true) → x ≡ y
bool_eq true true f g = refl
bool_eq false false f g = refl
bool_eq true false f g = sym (f refl)
bool_eq false true f g = g refl

module _ (a b c d : ℕ) (la : a < 256) (lb : b < 256) (lc : c < 256) (ld : d < 256) where
  eighth : (n : ℕ) → (address_of a b c d / 16777216 == n) ≡ (a == n)
  eighth n = ap (λ x. x == n) (omega arith)

  sixteenth : (m n : ℕ) → n < 256 → (address_of a b c d / 65536 == m * 256 + n) ≡ (a == m && b == n)
  sixteenth m n ln = bool_eq _ _ (λ e. ground arith) (λ e. ground arith)

  twelfth : (address_of a b c d / 1048576 == 2753) ≡ (a == 172 && leb 16 b && leb b 31)
  twelfth = bool_eq _ _ (λ e. ground arith) (λ e. ground arith)

  tenth : (address_of a b c d / 4194304 == 401) ≡ (a == 100 && leb 64 b && leb b 127)
  tenth = bool_eq _ _ (λ e. ground arith) (λ e. ground arith)

  third : (address_of a b c d / 536870912 == 7) ≡ (leb 224 a)
  third = bool_eq _ _ (λ e. ground arith) (λ e. ground arith)

  octets : is_private_octets a b ≡ in_any (address_of a b c d) blocked_blocks
  unfolding is_private_octets
  octets =
      rw
        (
          eighth 127,
          eighth 10,
          twelfth,
          sixteenth 192 168 (omega arith),
          sixteenth 169 254 (omega arith),
          tenth,
          eighth 0,
          third,
        )
        (regroup (a == 127) (a == 10) (a == 172 && leb 16 b && leb b 31) (a == 192 && b == 168)
          (a == 169 && b == 254) (a == 100 && leb 64 b && leb b 127) (a == 0) (leb 224 a))

lacks-digits : (s : Units) → all_digits s ≡ true → lacks dot s ≡ true
unfolding all_digits lacks
lacks-digits [] h = refl
lacks-digits (x ∷ s) h =
    and-intro _ _ (ground (arith, and-left (is_digit x) (all_digits s) h))
      (lacks-digits s (and-right (is_digit x) (all_digits s) h))

lacks-to_string : (n : ℕ) → lacks dot (to_string n) ≡ true
lacks-to_string n = lacks-digits (to_string n) (all_digits-to_string n)

octet-to_string : (n : ℕ) → octet (to_string n) ≡ some n
octet-to_string n = rw (is_number-to_string n, value-to_string n) refl

split-dotted :
    (a b c d : ℕ)
    → split dot (dotted a b c d) ≡ to_string a ∷ to_string b ∷ to_string c ∷ to_string d ∷ []
split-dotted a b c d =
    rw
      (
        split-++ dot (to_string a) (to_string b ++ (dot ∷ (to_string c ++ (dot ∷ to_string d))))
            (lacks-to_string a),
        split-++ dot (to_string b) (to_string c ++ (dot ∷ to_string d)) (lacks-to_string b),
        split-++ dot (to_string c) (to_string d) (lacks-to_string c),
        split-lacks dot (to_string d) (lacks-to_string d),
      )
      refl

-- A dotted IPv4 address with octets below 256 is blocked exactly when, as a number of 32 bits, it
-- is in one of the blocks 127/8, 10/8, 172.16/12, 192.168/16, 169.254/16, 100.64/10, 0/8 and
-- 224/3.
pub is_private_or_reserved_ipv4_lem :
    (a b c d : ℕ)
    → a < 256
    → b < 256
    → c < 256
    → d < 256
    → is_private_or_reserved_ipv4 (dotted a b c d) ≡ in_any (address_of a b c d) blocked_blocks
unfolding is_private_or_reserved_ipv4
is_private_or_reserved_ipv4_lem a b c d la lb lc ld =
    rw (split-dotted a b c d, octet-to_string a, octet-to_string b) (octets a b c d la lb lc ld)
