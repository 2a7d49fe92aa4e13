-- ===== src/Web/MandateStatus.antt =====
-- apps/web/src/lib/mandate-status.ts: what the dashboard derives from a mandate. Amounts and times
-- are the contract's non-negative integers, so the dividend of `floorDivBigInt`, which its one
-- caller clamps, is never negative here.
pub mod Period
pub mod NextCharge
pub mod Agreement
pub mod Controls
use stellar_journey.Base.{
  ℕ, zero, suc, ◌+◌, ◌-◌, ◌*◌, ◌/◌, Bool, true, false, not, ◌&&◌, ◌||◌, Option, none, some, leb,
  ltb, ◌==◌, if◌then◌else◌,
}
use stellar_journey.Client.Mandate.{
  MandateStatus, active, paused, revoked, completed, expired, AmountRule, fixed, variable, Mandate,
}

-- `none` where it throws.
unfoldable pub floor_div : ℕ → ℕ → Option ℕ
floor_div a b = if b == 0 then none else some (a / b)

abbrev pub is_active : MandateStatus → Bool
is_active active = true
is_active _ = false

abbrev pub is_paused : MandateStatus → Bool
is_paused paused = true
is_paused _ = false

unfoldable pub derive_effective_status : Mandate → ℕ → MandateStatus
derive_effective_status mandate now =
    if (is_active mandate.status || is_paused mandate.status) && leb mandate.expires_at now
    then expired
    else mandate.status

pub record EffectivePeriodUsage : Type 0 where
  pub period_start : ℕ
  pub collected : ℕ
  pub max : ℕ

-- The usage of the period with the index `i`.
abbrev pub usage_of : Mandate → ℕ → EffectivePeriodUsage
usage_of mandate i =
    let start = mandate.start_at + i * mandate.period_seconds in
    record {
      period_start = start;
      collected =
          if start == mandate.current_period_start then mandate.current_period_collected else 0;
      max = mandate.max_per_period;
    }

abbrev pub usage_at : Mandate → Option ℕ → Option EffectivePeriodUsage
usage_at mandate none = none
usage_at mandate (some i) = some (usage_of mandate i)

-- `none` where the division throws.
unfoldable pub compute_effective_period_usage : Mandate → ℕ → Option EffectivePeriodUsage
unfolding floor_div
compute_effective_period_usage mandate at =
    let clamped = if ltb mandate.start_at at then at else mandate.start_at in
    usage_at mandate (floor_div (clamped - mandate.start_at) mandate.period_seconds)

-- How the search for a date ends: with a date, with `undefined`, or by a throw.
pub data NextDate : Type 0 where
  date : ℕ → NextDate
  no_date : NextDate
  division_error : NextDate

abbrev pub amount_rule_fixed_amount : AmountRule → Option ℕ
amount_rule_fixed_amount (fixed amount) = some amount
amount_rule_fixed_amount (variable max) = none

-- `knownChargeAmount ?? 1n`.
abbrev pub or_one : Option ℕ → ℕ
or_one none = 1
or_one (some amount) = amount

abbrev pub probe_amount : Mandate → ℕ
probe_amount mandate = or_one (amount_rule_fixed_amount mandate.amount_rule)

abbrev pub interval_floor : Mandate → Option ℕ → ℕ
interval_floor mandate none = mandate.start_at
interval_floor mandate (some last) = last + mandate.min_interval_seconds

abbrev pub first_candidate : Mandate → ℕ
first_candidate mandate =
    let floor = interval_floor mandate mandate.last_charged_at in
    if ltb mandate.start_at floor then floor else mandate.start_at

-- The test of one round, on the usage at the candidate: the candidate is taken, or the next period's
-- boundary is tried by `later`.
abbrev pub try_usage : Mandate → ℕ → (ℕ → NextDate) → Option EffectivePeriodUsage → NextDate
try_usage mandate candidate later none = division_error
try_usage mandate candidate later (some usage) =
    if leb (usage.collected + probe_amount mandate) usage.max
    then date candidate
    else later (usage.period_start + mandate.period_seconds)

-- The loop with `rounds` rounds left.
unfoldable pub search_rounds : Mandate → ℕ → ℕ → NextDate
search_rounds mandate zero candidate =
    if leb mandate.expires_at candidate then no_date else date candidate
search_rounds mandate (suc rounds) candidate =
    let found =
      try_usage mandate candidate (search_rounds mandate rounds)
        (compute_effective_period_usage mandate candidate) in
    if leb mandate.expires_at candidate then no_date else found

unfoldable pub compute_next_eligible_charge_date : Mandate → NextDate
compute_next_eligible_charge_date mandate =
    if not (is_active mandate.status)
    then no_date
    else (if not (mandate.max_successful_charges == 0)
          && leb mandate.max_successful_charges mandate.successful_charges
        then no_date
        else search_rounds mandate 4 (first_candidate mandate))

pub record MandateControlAvailability : Type 0 where
  pub can_pause : Bool
  pub can_resume : Bool
  pub can_cancel_autopay : Bool

unfoldable pub derive_control_availability : MandateStatus → MandateControlAvailability
derive_control_availability status = record {
  can_pause = is_active status;
  can_resume = is_paused status;
  can_cancel_autopay = is_active status || is_paused status;
}
