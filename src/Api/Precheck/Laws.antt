-- ===== src/Api/Precheck/Laws.antt =====
-- The precheck of the API and the dashboard's conditions on a charge agree.
use stellar_journey.Base.{
  ℕ, ◌+◌, ◌-◌, ◌*◌, ◌/◌, ◌≤◌, ◌<◌, ◌≡◌, ◌↔◌, ◌⊎◌, ◌∙◌, ap, refl, false, Option, none, some, arith,
  ◌==◌, if◌then◌else◌,
}
use stellar_journey.Client.Mandate.{
  MandateStatus, active, paused, revoked, completed, expired, AmountRule, fixed, variable, Mandate,
}
use stellar_journey.Api.Precheck.{
  clear, exceeds_rule, too_soon, check_period, check_active, check_status, precheck_charge,
}

-- What the contract asks of a charge of an amount at an instant, as far as the mandate alone says.
pub record IsChargeable (mandate : Mandate) (amount now : ℕ) : Type 0 where
  pub status : mandate.status ≡ active
  pub begun : mandate.start_at ≤ now
  pub unexpired : now < mandate.expires_at
  pub positive : 0 < amount
  pub exact : (fixed_amount : ℕ) → mandate.amount_rule ≡ fixed fixed_amount → amount ≡ fixed_amount
  pub capped : (max : ℕ) → mandate.amount_rule ≡ variable max → amount ≤ max
  pub interval :
      (last : ℕ) → mandate.last_charged_at ≡ some last → last + mandate.min_interval_seconds ≤ now
  pub count :
      (mandate.max_successful_charges ≡ 0)
      ⊎ (mandate.successful_charges < mandate.max_successful_charges)
  pub period_exists : 0 < mandate.period_seconds
  pub allowance :
      (if mandate.start_at
              + (now - mandate.start_at) / mandate.period_seconds * mandate.period_seconds
            == mandate.current_period_start
          then mandate.current_period_collected
          else 0)
        + amount
      ≤ mandate.max_per_period

rule_lem :
    (rule : AmountRule) (amount : ℕ)
    → (exceeds_rule rule amount ≡ false)
      ↔ (((n : ℕ) → rule ≡ fixed n → amount ≡ n) × ((n : ℕ) → rule ≡ variable n → amount ≤ n))
rule_lem (fixed n) amount =
    (λ h. (λ m e. ground arith, λ m e. ground arith), λ h. ground (arith, h.0 n refl))
rule_lem (variable n) amount =
    (λ h. (λ m e. ground arith, λ m e. ground arith), λ h. ground (arith, h.1 n refl))

interval_lem :
    (mandate : Mandate) (last_charged_at : Option ℕ) (now : ℕ)
    → (too_soon mandate last_charged_at now ≡ false)
      ↔ ((last : ℕ) → last_charged_at ≡ some last → last + mandate.min_interval_seconds ≤ now)
interval_lem mandate none now = (λ h last e. absurd cc, λ h. refl)
interval_lem mandate (some l) now = (λ h last e. ground arith, λ h. ground (arith, h l refl))

status_lem :
    (mandate : Mandate) (amount now : ℕ) (s : MandateStatus)
    → check_status mandate amount now s ≡ clear
    → (s ≡ active) × (check_active mandate amount now ≡ clear)
status_lem mandate amount now active e = (refl, e)
status_lem mandate amount now paused e = absurd cc
status_lem mandate amount now revoked e = absurd cc
status_lem mandate amount now completed e = absurd cc
status_lem mandate amount now expired e = absurd cc

active_lem :
    (mandate : Mandate) (amount now : ℕ)
    → check_active mandate amount now ≡ clear
    → (mandate.start_at ≤ now)
      × (now < mandate.expires_at)
      × (0 < amount)
      × (exceeds_rule mandate.amount_rule amount ≡ false)
      × (too_soon mandate mandate.last_charged_at now ≡ false)
      × ((mandate.max_successful_charges ≡ 0)
          ⊎ (mandate.successful_charges < mandate.max_successful_charges))
      × (check_period mandate amount now ≡ clear)
unfolding check_active
active_lem mandate amount now e = ground arith

period_lem :
    (mandate : Mandate) (amount now : ℕ)
    → check_period mandate amount now ≡ clear
    → (0 < mandate.period_seconds)
      × ((if mandate.start_at
                  + (now - mandate.start_at) / mandate.period_seconds * mandate.period_seconds
                == mandate.current_period_start
              then mandate.current_period_collected
              else 0)
            + amount
          ≤ mandate.max_per_period)
unfolding check_period
period_lem mandate amount now e = ground arith

clear-IsChargeable :
    (mandate : Mandate) (amount now : ℕ)
    → precheck_charge mandate amount now ≡ clear
    → IsChargeable mandate amount now
unfolding precheck_charge
clear-IsChargeable mandate amount now e =
    let (status, in_order) = status_lem mandate amount now mandate.status e in
    let (begun, unexpired, positive, rule, interval, count, period) =
      active_lem mandate amount now in_order in
    record {
      status = status;
      begun = begun;
      unexpired = unexpired;
      positive = positive;
      exact = ((rule_lem mandate.amount_rule amount).0 rule).0;
      capped = ((rule_lem mandate.amount_rule amount).0 rule).1;
      interval = (interval_lem mandate mandate.last_charged_at now).0 interval;
      count = count;
      period_exists = (period_lem mandate amount now period).0;
      allowance = (period_lem mandate amount now period).1;
    }

chargeable_clear :
    (mandate : Mandate) (amount now : ℕ)
    → IsChargeable mandate amount now
    → precheck_charge mandate amount now ≡ clear
unfolding precheck_charge check_active check_period
chargeable_clear mandate amount now c =
    ap (check_status mandate amount now) c.status
    ∙ ground (
      arith,
      c.begun,
      c.unexpired,
      c.positive,
      (rule_lem mandate.amount_rule amount).1 (c.exact, c.capped),
      (interval_lem mandate mandate.last_charged_at now).1 c.interval,
      c.count,
      c.period_exists,
      c.allowance,
    )

-- The precheck lets a charge through exactly when every condition of the contract that the
-- mandate alone decides holds: the status, the dates, a positive amount, the amount rule, the
-- interval, the count, and what is left of a period of some length.
pub precheck_charge_iff :
    (mandate : Mandate) (amount now : ℕ)
    → (precheck_charge mandate amount now ≡ clear) ↔ IsChargeable mandate amount now
precheck_charge_iff mandate amount now =
    (clear-IsChargeable mandate amount now, chargeable_clear mandate amount now)
