-- ===== src/Web/MandateStatus/Period.antt =====
-- The billing period of an instant.
use native.Mathlib.Nat.{
  div-mul-le_self, lt-div-mul-add, le-div_iff_mul-le, div-lt_iff_lt-mul, mul-add-div_right,
  div_self,
}
use stellar_journey.Base.{ℕ, suc, ◌+◌, ◌-◌, ◌*◌, ◌/◌, ◌≤◌, ◌<◌, ◌≡◌, ◌∙◌, ap, some, arith}
use stellar_journey.Client.Mandate.{Mandate}
use stellar_journey.Web.MandateStatus.{usage_of, compute_effective_period_usage, floor_div}

-- The index of the period that holds an instant not before the start.
abbrev pub period_index : Mandate → ℕ → ℕ
period_index mandate at = (at - mandate.start_at) / mandate.period_seconds

-- The usage at an instant not before the start is that of its period.
pub usage_lem :
    (mandate : Mandate) (at : ℕ)
    → 0 < mandate.period_seconds
    → mandate.start_at ≤ at
    → compute_effective_period_usage mandate at ≡ some (usage_of mandate (period_index mandate at))
unfolding compute_effective_period_usage floor_div
usage_lem mandate at positive late = ground arith

-- The first instant after the period with the index `i`.
abbrev pub boundary : Mandate → ℕ → ℕ
boundary mandate i = mandate.start_at + i * mandate.period_seconds + mandate.period_seconds

module _ (mandate : Mandate) (positive : 0 < mandate.period_seconds) where
  pub before-boundary :
      (at : ℕ)
      → mandate.start_at ≤ at
      → (mandate.start_at + period_index mandate at * mandate.period_seconds ≤ at)
        × (at < boundary mandate (period_index mandate at))
  before-boundary at late = (
    omega (arith, div-mul-le_self (at - mandate.start_at) mandate.period_seconds),
    omega (arith, lt-div-mul-add {a = at - mandate.start_at} positive),
  )

  -- An instant between another one and the end of its period is in the same period.
  pub same_period :
      (at later : ℕ)
      → mandate.start_at ≤ at
      → at ≤ later
      → later < boundary mandate (period_index mandate at)
      → period_index mandate later ≡ period_index mandate at
  same_period at later late after before = omega (arith, not_less, not_more)
    where
      not_less : period_index mandate at ≤ period_index mandate later
      not_less = (le-div_iff_mul-le positive).1 (omega (arith, before-boundary at late))

      not_more : period_index mandate later < suc (period_index mandate at)
      not_more = (div-lt_iff_lt-mul positive).1 (omega (arith, before))

  -- The boundary of a period is in the next one.
  pub period_index-boundary : (i : ℕ) → period_index mandate (boundary mandate i) ≡ suc i
  period_index-boundary i =
      ap (λ n. n / mandate.period_seconds) since_start
      ∙ mul-add-div_right positive i mandate.period_seconds
      ∙ omega (arith, div_self positive)
    where
      since_start :
          boundary mandate i - mandate.start_at
          ≡ i * mandate.period_seconds + mandate.period_seconds
      since_start = omega arith
