-- ===== src/Shared/Money.antt =====
-- packages/shared/src/money.ts: amounts as decimal strings and as integers. A string is a list of
-- its code units; `decimals` and an amount are naturals here, so the source's guards on them pass.
pub mod RoundTrip
use stellar_journey.Base.{
  ℕ, zero, suc, ◌+◌, ◌-◌, ◌*◌, ◌/◌, ◌%◌, Bool, true, false, not, ◌&&◌, Option, none, some, List, [],
  ◌∷◌, ◌++◌, length, leb, ltb, ◌==◌, if◌then◌else◌,
}

abbrev pub Units : Type 0
Units = List ℕ

abbrev pub dot : ℕ
dot = 46

abbrev pub zero_digit : ℕ
zero_digit = 48

abbrev pub is_digit : ℕ → Bool
is_digit c = leb 48 c && leb c 57

-- `n` digits "0".
unfoldable pub zeros : ℕ → Units
zeros zero = []
zeros (suc n) = zero_digit ∷ zeros n

unfoldable pub take : ℕ → Units → Units
take zero s = []
take (suc n) [] = []
take (suc n) (c ∷ s) = c ∷ take n s

unfoldable pub drop : ℕ → Units → Units
drop zero s = s
drop (suc n) [] = []
drop (suc n) (c ∷ s) = drop n s

-- `padEnd` and `padStart` with "0".
abbrev pub pad_end : ℕ → Units → Units
pad_end n s = s ++ zeros (n - length s)

abbrev pub pad_start : ℕ → Units → Units
pad_start n s = zeros (n - length s) ++ s

unfoldable pub all_digits : Units → Bool
all_digits [] = true
all_digits (c ∷ s) = is_digit c && all_digits s

-- `\d+`, to the end of the string.
unfoldable pub is_number : Units → Bool
is_number [] = false
is_number (c ∷ s) = is_digit c && all_digits s

-- What follows the first dot, where there is one; and what stands before it.
unfoldable pub after_dot : Units → Option Units
after_dot [] = none
after_dot (c ∷ s) = if c == dot then some s else after_dot s

unfoldable pub before_dot : Units → Units
before_dot [] = []
before_dot (c ∷ s) = if c == dot then [] else c ∷ before_dot s

-- `BigInt` of digits, the value of the digits before them given.
unfoldable pub value : ℕ → Units → ℕ
value n [] = n
value n (c ∷ s) = value (n * 10 + (c - 48)) s

-- `toString`, the digits behind the number given, for a number below the first argument.
unfoldable pub digits_before : ℕ → ℕ → Units → Units
digits_before zero n rest = rest
digits_before (suc m) n rest =
    let more = digits_before m (n / 10) ((48 + n % 10) ∷ rest) in
    if ltb n 10 then (48 + n % 10) ∷ rest else more

abbrev pub to_string : ℕ → Units
to_string n = digits_before (suc n) n []

-- The two parts of a string that matches the pattern; `none` is the error of every conversion.
abbrev pub convert : ℕ → Units → Units → Option ℕ
convert decimals whole fraction =
    if ltb decimals (length fraction)
    then none
    else some (value 0 (whole ++ pad_end decimals fraction))

unfoldable pub parts : Units → ℕ → Option Units → Option ℕ
parts decimal decimals none = if is_number decimal then convert decimals decimal [] else none
parts decimal decimals (some fraction) =
    if is_number (before_dot decimal) && is_number fraction
    then convert decimals (before_dot decimal) fraction
    else none

unfoldable pub decimal_to_base_units : Units → ℕ → Option ℕ
decimal_to_base_units decimal decimals = parts decimal decimals (after_dot decimal)

abbrev pub render : ℕ → Units → Units
render zero digits = digits
render (suc d) digits =
    take (length digits - suc d) digits ++ (dot ∷ drop (length digits - suc d) digits)

unfoldable pub base_units_to_decimal_string : ℕ → ℕ → Units
base_units_to_decimal_string amount decimals =
    render decimals (pad_start (suc decimals) (to_string amount))

unfoldable pub decimal_to_positive_base_units : Units → ℕ → Option ℕ
unfolding decimal_to_base_units
decimal_to_positive_base_units decimal decimals = positive (decimal_to_base_units decimal decimals)
  where
    positive : Option ℕ → Option ℕ
    positive none = none
    positive (some amount) = if amount == 0 then none else some amount
