-- ===== src/Shared/HexId.antt =====
-- packages/shared/src/types.ts: `HexId32Schema`, an id of 32 bytes in hexadecimal. A byte is two digits.
use stellar_journey.Base.{
  ℕ, ◌-◌, String, Bool, true, false, ◌&&◌, Option, none, some, List, [], ◌∷◌, leb, ◌==◌, length,
  if◌then◌else◌, codes,
}

-- One of `[0-9a-f]`, in either case.
abbrev pub hex_digit : ℕ → Option ℕ
hex_digit c =
    if leb b'0' c && leb c b'9'
    then some (c - b'0')
    else (if leb b'a' c && leb c b'f'
        then some (c - 87)
        else (if leb b'A' c && leb c b'F' then some (c - 55) else none))

abbrev pub and_digit : Option ℕ → Option (List ℕ) → Option (List ℕ)
and_digit (some d) (some ds) = some (d ∷ ds)
and_digit _ _ = none

unfoldable pub hex_digits : List ℕ → Option (List ℕ)
hex_digits [] = some []
hex_digits (c ∷ cs) = and_digit (hex_digit c) (hex_digits cs)

-- The digits of an id; `none` where the pattern does not match.
unfoldable pub hex_id32 : String → Option (List ℕ)
hex_id32 s = if length (codes s) == 64 then hex_digits (codes s) else none

abbrev pub is_given {ℓ} : {A : Type ℓ} → Option A → Bool
is_given none = false
is_given (some a) = true

unfoldable pub is_hex_id32 : String → Bool
unfolding hex_id32
is_hex_id32 s = is_given (hex_id32 s)
