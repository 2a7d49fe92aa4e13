-- ===== src/Shared/Money/RoundTrip.antt =====
-- Printing an amount (packages/shared/src/money.ts) and parsing it.
use stellar_journey.Base.{
  and-left, and-right, and-intro, inl, inr, Bool-cases, lt→ltb, ==_iff, subst, ltb→lt, le→leb, ℕ,
  zero, suc, ◌+◌, ◌-◌, ◌/◌, ◌%◌, ◌≤◌, ◌<◌, ◌≡◌, ◌∙◌, refl, sym, ap, Bool, true, false, ◌&&◌, Option,
  none, some, [], ◌∷◌, ◌++◌, length, ltb, ◌==◌, if◌then◌else◌, arith,
}
use stellar_journey.Shared.Money.{
  Units, dot, is_digit, zeros, take, drop, pad_end, pad_start, all_digits, is_number, after_dot,
  before_dot, value, digits_before, to_string, convert, parts, decimal_to_base_units, render,
  base_units_to_decimal_string,
}

last_digit-is_digit : (n : ℕ) → is_digit (48 + n % 10) ≡ true
last_digit-is_digit n =
    and-intro _ _ (le→leb 48 (48 + n % 10) (omega arith)) (le→leb (48 + n % 10) 57 (omega arith))

ltb-false : (a b : ℕ) → ltb a b ≡ false → b ≤ a
ltb-false a b h = ground arith

value-zeros : (k : ℕ) (s : Units) → value 0 (zeros k ++ s) ≡ value 0 s
unfolding zeros value
value-zeros zero s = refl
value-zeros (suc k) s = value-zeros k s

all_digits-zeros : (k : ℕ) (s : Units) → all_digits s ≡ true → all_digits (zeros k ++ s) ≡ true
unfolding zeros all_digits
all_digits-zeros zero s h = h
all_digits-zeros (suc k) s h = all_digits-zeros k s h

length-zeros : (k : ℕ) (s : Units) → length (zeros k ++ s) ≡ k + length s
unfolding zeros
length-zeros zero s = omega arith
length-zeros (suc k) s = ap suc (length-zeros k s) ∙ omega arith

value-digits_before :
    (m n : ℕ) (rest : Units) → n < m → value 0 (digits_before m n rest) ≡ value n rest
unfolding digits_before value
value-digits_before zero n rest h = absurd (omega (arith, h))
value-digits_before (suc m) n rest h = elim (Bool-cases (ltb n 10)) [
  | inl small ↦ rw small (ap (λ k. value k rest) (omega (arith, ltb→lt n 10 small)))
  | inr large ↦ rw large (
      value-digits_before m (n / 10) _ (omega (arith, h, ltb-false n 10 large))
      ∙ ap (λ k. value k rest) (omega arith))
]

all_digits-digits_before :
    (m n : ℕ) (rest : Units) → all_digits rest ≡ true → all_digits (digits_before m n rest) ≡ true
unfolding digits_before all_digits
all_digits-digits_before zero n rest h = h
all_digits-digits_before (suc m) n rest h = elim (Bool-cases (ltb n 10)) [
  | inl small ↦ rw small (more)
  | inr large ↦ rw large (all_digits-digits_before m (n / 10) _ more)
]
  where
    more : (is_digit (48 + n % 10) && all_digits rest) ≡ true
    more = and-intro _ _ (last_digit-is_digit n) h

length-digits_before :
    (m n : ℕ) (rest : Units) → 0 < length rest → 0 < length (digits_before m n rest)
unfolding digits_before
length-digits_before zero n rest h = h
length-digits_before (suc m) n rest h = elim (Bool-cases (ltb n 10)) [
  | inl small ↦ rw small (omega arith)
  | inr large ↦ rw large (length-digits_before m (n / 10) _ (omega arith))
]

pub length-to_string : (n : ℕ) → 0 < length (to_string n)
unfolding digits_before
length-to_string n = elim (Bool-cases (ltb n 10)) [
  | inl small ↦ rw small (omega arith)
  | inr large ↦ rw large (length-digits_before n (n / 10) _ (omega arith))
]

pub all_digits-to_string : (n : ℕ) → all_digits (to_string n) ≡ true
unfolding all_digits
all_digits-to_string n = all_digits-digits_before (suc n) n [] refl

pub value-to_string : (n : ℕ) → value 0 (to_string n) ≡ n
unfolding value
value-to_string n = value-digits_before (suc n) n [] (omega arith)

take-drop : (n : ℕ) (s : Units) → take n s ++ drop n s ≡ s
unfolding take drop
take-drop zero s = refl
take-drop (suc n) [] = refl
take-drop (suc n) (c ∷ s) = ap (λ t. c ∷ t) (take-drop n s)

length-take : (n : ℕ) (s : Units) → n ≤ length s → length (take n s) ≡ n
unfolding take
length-take zero s h = refl
length-take (suc n) [] h = absurd (omega (arith, h))
length-take (suc n) (c ∷ s) h = ap suc (length-take n s (omega (arith, h)))

length-drop : (n : ℕ) (s : Units) → length (drop n s) ≡ length s - n
unfolding drop
length-drop zero s = omega arith
length-drop (suc n) [] = omega arith
length-drop (suc n) (c ∷ s) = length-drop n s ∙ omega arith

all_digits-take : (n : ℕ) (s : Units) → all_digits s ≡ true → all_digits (take n s) ≡ true
unfolding take all_digits
all_digits-take zero s h = refl
all_digits-take (suc n) [] h = refl
all_digits-take (suc n) (c ∷ s) h =
    and-intro _ _ (and-left _ _ h) (all_digits-take n s (and-right _ _ h))

all_digits-drop : (n : ℕ) (s : Units) → all_digits s ≡ true → all_digits (drop n s) ≡ true
unfolding drop all_digits
all_digits-drop zero s h = h
all_digits-drop (suc n) [] h = refl
all_digits-drop (suc n) (c ∷ s) h = all_digits-drop n s (and-right _ _ h)

digit_ne_dot : (c : ℕ) → is_digit c ≡ true → (c == dot) ≡ false
digit_ne_dot c h = ground arith

after_dot-digits : (s : Units) → all_digits s ≡ true → after_dot s ≡ none
unfolding after_dot all_digits
after_dot-digits [] h = refl
after_dot-digits (c ∷ s) h =
    rw (digit_ne_dot c (and-left _ _ h)) (after_dot-digits s (and-right _ _ h))

after_dot-++ : (s t : Units) → all_digits s ≡ true → after_dot (s ++ (dot ∷ t)) ≡ some t
unfolding after_dot all_digits
after_dot-++ [] t h = refl
after_dot-++ (c ∷ s) t h = rw (digit_ne_dot c (and-left _ _ h)) (after_dot-++ s t (and-right _ _ h))

before_dot-++ : (s t : Units) → all_digits s ≡ true → before_dot (s ++ (dot ∷ t)) ≡ s
unfolding before_dot all_digits
before_dot-++ [] t h = refl
before_dot-++ (c ∷ s) t h =
    rw (digit_ne_dot c (and-left _ _ h)) (ap (λ r. c ∷ r) (before_dot-++ s t (and-right _ _ h)))

is_number-digits : (s : Units) → 0 < length s → all_digits s ≡ true → is_number s ≡ true
unfolding is_number all_digits
is_number-digits [] h e = absurd (omega (arith, h))
is_number-digits (c ∷ s) h e = e

append_nil : (s : Units) → s ++ [] ≡ s
append_nil [] = refl
append_nil (c ∷ s) = ap (λ t. c ∷ t) (append_nil s)

ltb_refl : (n : ℕ) → ltb n n ≡ false
ltb_refl n = ground arith

pad_end-full : (s : Units) → pad_end (length s) s ≡ s
unfolding zeros
pad_end-full s =
    let full : length s - length s ≡ 0 = omega arith in ap (λ k. s ++ zeros k) full ∙ append_nil s

convert_lem :
    (whole fraction : Units)
    → convert (length fraction) whole fraction ≡ some (value 0 (whole ++ fraction))
convert_lem whole fraction = rw (ltb_refl (length fraction), pad_end-full fraction)

-- A string of digits and one of its cuts, printed with a dot between and parsed.
parse_cut :
    (whole fraction : Units)
    → all_digits whole ≡ true
    → all_digits fraction ≡ true
    → 0 < length whole
    → 0 < length fraction
    → decimal_to_base_units (whole ++ (dot ∷ fraction)) (length fraction)
      ≡ some (value 0 (whole ++ fraction))
unfolding decimal_to_base_units parts
parse_cut whole fraction w f some_whole some_fraction =
    rw
      (
        after_dot-++ whole fraction w,
        before_dot-++ whole fraction w,
        is_number-digits whole some_whole w,
        is_number-digits fraction some_fraction f,
      )
      (convert_lem whole fraction)

parse_cut_fewer :
    (whole fraction : Units)
    → all_digits whole ≡ true
    → (k : ℕ) → k < length fraction
    → decimal_to_base_units (whole ++ (dot ∷ fraction)) k ≡ none
unfolding decimal_to_base_units parts
parse_cut_fewer whole fraction w k fewer =
    rw (after_dot-++ whole fraction w, lt→ltb k (length fraction) fewer)
      (either (is_number (before_dot (whole ++ (dot ∷ fraction))) && is_number fraction))
  where
    either : (b : Bool) → Path (Option ℕ) (if b then none else none) none
    either true = refl
    either false = refl

parse_render :
    (decimals : ℕ) (s : Units)
    → all_digits s ≡ true
    → decimals < length s
    → decimal_to_base_units (render decimals s) decimals ≡ some (value 0 s)
unfolding decimal_to_base_units parts
parse_render zero s h long =
    rw (after_dot-digits s h, is_number-digits s long h)
      (convert_lem s [] ∙ ap (λ t. some (value 0 t)) (append_nil s))
parse_render (suc d) s h long =
    subst (λ k. decimal_to_base_units (whole ++ (dot ∷ fraction)) k ≡ some (value 0 s)) fits
      (parse_cut whole fraction (all_digits-take cut s h) (all_digits-drop cut s h)
          (omega (arith, length-take cut s (omega arith), long)) (omega (arith, fits))
        ∙ ap (λ t. some (value 0 t)) (take-drop cut s))
  where
    cut : ℕ
    cut = length s - suc d

    whole : Units
    whole = take cut s

    fraction : Units
    fraction = drop cut s

    fits : length fraction ≡ suc d
    fits = omega (arith, length-drop cut s, long)

parse_render_fewer :
    (decimals : ℕ) (s : Units)
    → all_digits s ≡ true
    → decimals < length s
    → (k : ℕ) → k < decimals
    → decimal_to_base_units (render decimals s) k ≡ none
parse_render_fewer zero s h long k fewer = absurd (omega (arith, fewer))
parse_render_fewer (suc d) s h long k fewer =
    parse_cut_fewer (take cut s) (drop cut s) (all_digits-take cut s h) k
      (omega (arith, length-drop cut s, long, fewer))
  where
    cut : ℕ
    cut = length s - suc d

pub is_number-to_string : (n : ℕ) → is_number (to_string n) ≡ true
is_number-to_string n = is_number-digits (to_string n) (length-to_string n) (all_digits-to_string n)

module _ (amount decimals : ℕ) where
  abbrev digits : Units
  digits = pad_start (suc decimals) (to_string amount)

  value-digits : value 0 digits ≡ amount
  unfolding value
  value-digits =
      value-zeros _ (to_string amount) ∙ value-digits_before (suc amount) amount [] (omega arith)

  digits-all : all_digits digits ≡ true
  unfolding all_digits
  digits-all =
      all_digits-zeros _ (to_string amount) (all_digits-digits_before (suc amount) amount [] refl)

  digits-long : decimals < length digits
  digits-long =
      omega (arith, length-zeros (suc decimals - length (to_string amount)) (to_string amount))

  abbrev printed : Units
  printed = base_units_to_decimal_string amount decimals

  same_decimals : decimal_to_base_units printed decimals ≡ some amount
  unfolding base_units_to_decimal_string
  same_decimals = parse_render decimals digits digits-all digits-long ∙ ap some value-digits

  fewer_decimals : (k : ℕ) → k < decimals → decimal_to_base_units printed k ≡ none
  unfolding base_units_to_decimal_string
  fewer_decimals k fewer = parse_render_fewer decimals digits digits-all digits-long k fewer

  -- An amount that is printed with some decimals is read back when it is parsed with as many, and
  -- refused, never rounded, when it is parsed with fewer.
  pub decimal_to_base_units-base_units_to_decimal_string :
      (k : ℕ)
      → k ≤ decimals
      → decimal_to_base_units printed k ≡ (if k == decimals then some amount else none)
  decimal_to_base_units-base_units_to_decimal_string k most = elim (Bool-cases (k == decimals)) [
    | inl same ↦ rw same (
        subst (λ j. decimal_to_base_units printed j ≡ some amount)
          (sym ((==_iff k decimals).0 same)) same_decimals)
    | inr other ↦ rw other (fewer_decimals k (ground arith))
  ]
