-- ===== src/Web/Terms/Exposure.antt =====
-- The exposure shown to the payer bounds every history of charges that the terms allow.
use native.Mathlib.Nat.{lt-div-mul-add, mul-le-mul_left}
use stellar_journey.Base.{
  ℕ, zero, suc, ◌+◌, ◌-◌, ◌*◌, ◌/◌, ◌≤◌, ◌<◌, ◌≡◌, ◌⊎◌, ◌∙◌, inl, inr, refl, sym, ap, false, some,
  List, [], ◌∷◌, arith, leb, if◌then◌else◌, Bool-cases, Option-cases, length,
}
use stellar_journey.Web.Terms.{
  MandateTerms, ceil_div, per_charge_ceiling, periods_until_expiry, compute_max_exposure,
  compute_bounded_allowance,
}

abbrev pub sum : List ℕ → ℕ
sum [] = 0
sum (x ∷ xs) = x + sum xs

-- The charges of the periods of a mandate, one list for each period.
abbrev pub total : List (List ℕ) → ℕ
total [] = 0
total (charges ∷ periods) = sum charges + total periods

abbrev pub charge_count : List (List ℕ) → ℕ
charge_count [] = 0
charge_count (charges ∷ periods) = length charges + charge_count periods

abbrev pub EachAtMost : ℕ → List ℕ → Type 0
EachAtMost bound [] = Unit {0}
EachAtMost bound (x ∷ xs) = (x ≤ bound) × EachAtMost bound xs

-- Every charge within the limit per charge, and every period within the limit per period.
abbrev pub WithinLimits : ℕ → ℕ → List (List ℕ) → Type 0
WithinLimits per_charge per_period [] = Unit {0}
WithinLimits per_charge per_period (charges ∷ periods) =
    EachAtMost per_charge charges
    × (sum charges ≤ per_period)
    × WithinLimits per_charge per_period periods

sum-le : (bound : ℕ) (xs : List ℕ) → EachAtMost bound xs → sum xs ≤ bound * length xs
sum-le bound [] h = omega arith
sum-le bound (x ∷ xs) (h, hs) = omega (arith, h, sum-le bound xs hs)

total-le_count :
    (per_charge per_period : ℕ) (periods : List (List ℕ))
    → WithinLimits per_charge per_period periods
    → total periods ≤ per_charge * charge_count periods
total-le_count per_charge per_period [] h = omega arith
total-le_count per_charge per_period (charges ∷ periods) (each, within, rest) =
    omega (arith, sum-le per_charge charges each, total-le_count per_charge per_period periods rest)

total-le_periods :
    (per_charge per_period : ℕ) (periods : List (List ℕ))
    → WithinLimits per_charge per_period periods
    → total periods ≤ per_period * length periods
total-le_periods per_charge per_period [] h = omega arith
total-le_periods per_charge per_period (charges ∷ periods) (each, within, rest) =
    omega (arith, within, total-le_periods per_charge per_period periods rest)

-- A rounded-up quotient times the divisor covers the dividend.
ceil_div-covers : (a b n : ℕ) → ceil_div a b ≡ some n → (0 < b) × (a ≤ n * b)
unfolding ceil_div
ceil_div-covers a zero n e = ground arith
ceil_div-covers a (suc b) n e =
    (omega arith, ground (arith, lt-div-mul-add {a = a + suc b - 1} {b = suc b} (omega arith)))

-- A mandate has no more periods that begin before its expiry than are counted.
periods-le :
    (terms : MandateTerms) (n m : ℕ)
    → periods_until_expiry terms ≡ some n
    → ((k : ℕ) → k < m → terms.start_at + k * terms.period_seconds < terms.expires_at)
    → m ≤ n
unfolding periods_until_expiry
periods-le terms n m e begins = elim (Bool-cases (leb m n)) [
  | inl within ↦ ground arith
  | inr beyond ↦ elim (Bool-cases (leb terms.expires_at terms.start_at)) [
    | inl over ↦ ground (arith, begins n (ground arith))
    | inr before ↦ ground (
      arith,
      begins n (ground arith),
      ceil_div-covers (terms.expires_at - terms.start_at) terms.period_seconds n (divided before),
    )
  ]
]
  where
    divided :
        leb terms.expires_at terms.start_at ≡ false
        → ceil_div (terms.expires_at - terms.start_at) terms.period_seconds ≡ some n
    divided before =
        sym (
          ap
            (λ over.
              if over
              then some 1
              else ceil_div (terms.expires_at - terms.start_at) terms.period_seconds)
            before)
        ∙ e

-- The terms of a history: each charge and each period within its limit, the count within the
-- maximum where there is one, and every period begun before the expiry.
pub record Allowed (terms : MandateTerms) (history : List (List ℕ)) : Type 0 where
  pub limits : WithinLimits (per_charge_ceiling terms.amount_rule) terms.max_per_period history
  pub count :
      (terms.max_successful_charges ≡ 0) ⊎ (charge_count history ≤ terms.max_successful_charges)
  pub begins :
      (k : ℕ) → k < length history → terms.start_at + k * terms.period_seconds < terms.expires_at

-- Whatever history of charges a mandate's terms allow (each charge and each period within its
-- limit, the count within the maximum where there is one, each period begun before the expiry),
-- the sum of the history is at most the maximum exposure that the checkout shows.
pub compute_max_exposure-bounds :
    (terms : MandateTerms) (exposure : ℕ) (history : List (List ℕ))
    → compute_max_exposure terms ≡ some exposure
    → Allowed terms history
    → total history ≤ exposure
unfolding compute_max_exposure
compute_max_exposure-bounds terms exposure history e allowed =
    elim (Option-cases (periods_until_expiry terms)) [
      | inl missing ↦ ground arith
      | inr (n, found) ↦ ground (arith, by_period n found, by_count)
    ]
  where
    by_period :
        (n : ℕ) → periods_until_expiry terms ≡ some n → total history ≤ terms.max_per_period * n
    by_period n found = omega (
      arith,
      total-le_periods (per_charge_ceiling terms.amount_rule) terms.max_per_period history
          allowed.limits,
      mul-le-mul_left terms.max_per_period
          (periods-le terms n (length history) found allowed.begins),
    )

    by_count :
        (terms.max_successful_charges ≡ 0)
        ⊎ (total history ≤ per_charge_ceiling terms.amount_rule * terms.max_successful_charges)
    by_count = elim allowed.count [
      | inl unlimited ↦ inl unlimited
      | inr within ↦ inr (
          omega (
            arith,
            total-le_count (per_charge_ceiling terms.amount_rule) terms.max_per_period history
                allowed.limits,
            mul-le-mul_left (per_charge_ceiling terms.amount_rule) within,
          ))
    ]

-- The allowance that is asked for is the exposure and a headroom, which is the least number of
-- base units that is one hundredth of the exposure or more; nothing is thrown.
pub compute_bounded_allowance_lem :
    (exposure : ℕ)
    → (fee : ℕ) × (compute_bounded_allowance exposure
        ≡ some (record { max_exposure = exposure; fee_headroom = fee; total = exposure + fee }))
      × (exposure ≤ fee * 100)
      × (fee * 100 < exposure + 100)
unfolding compute_bounded_allowance ceil_div
compute_bounded_allowance_lem exposure =
    ((exposure * 100 + 10000 - 1) / 10000, refl, omega arith, omega arith)
