-- ===== src/Web/MandateStatus/Agreement.antt =====
-- The date that the dashboard shows (apps/web/src/lib/mandate-status.ts) and the precheck of the API
-- (apps/api/src/chain/precheck.ts), for a mandate of a fixed amount.
use stellar_journey.Base.{ℕ, ◌≤◌, ◌<◌, ◌≡◌, ◌≢◌, ◌∙◌, sym, ap, arith}
use stellar_journey.Client.Mandate.{fixed, Mandate}
use stellar_journey.Api.Precheck.{clear, precheck_charge}
use stellar_journey.Api.Precheck.Laws.{IsChargeable, precheck_charge_iff}
use stellar_journey.Web.MandateStatus.{
  NextDate, date, no_date, division_error, or_one, amount_rule_fixed_amount, probe_amount,
  compute_next_eligible_charge_date,
}
use stellar_journey.Web.MandateStatus.NextCharge.{
  CanCharge, IsNext, compute_next_eligible_charge_date-IsNext,
}

module _ (mandate : Mandate) (amount : ℕ) (rule : mandate.amount_rule ≡ fixed amount)
    (positive : 0 < amount) (period : 0 < mandate.period_seconds) where
  probed : probe_amount mandate ≡ amount
  probed = ap (λ r. or_one (amount_rule_fixed_amount r)) rule

  chargeable_can : (at : ℕ) → IsChargeable mandate amount at → CanCharge mandate at
  chargeable_can at c = record {
    status = c.status;
    count = c.count;
    begun = c.begun;
    interval = c.interval;
    unexpired = c.unexpired;
    fits = omega (arith, c.allowance, probed);
  }

  can-IsChargeable : (at : ℕ) → CanCharge mandate at → IsChargeable mandate amount at
  can-IsChargeable at c = record {
    status = c.status;
    begun = c.begun;
    unexpired = c.unexpired;
    positive = positive;
    exact = λ n e. cc (sym rule ∙ e);
    capped = λ n e. absurd (cc (sym rule ∙ e));
    interval = c.interval;
    count = c.count;
    period_exists = period;
    allowance = omega (arith, c.fits, probed);
  }

  -- The answer in the words of the precheck.
  abbrev pub IsFirstClear : NextDate → Type 0
  IsFirstClear (date d) =
      (precheck_charge mandate amount d ≡ clear)
      × ((t : ℕ) → t < d → precheck_charge mandate amount t ≢ clear)
  IsFirstClear no_date = (t : ℕ) → precheck_charge mandate amount t ≢ clear
  IsFirstClear division_error = ⊥

  in_words : (answer : NextDate) → IsNext mandate answer → IsFirstClear answer
  in_words (date d) (can, earlier) = (
    (precheck_charge_iff mandate amount d).1 (can-IsChargeable d can),
    λ t before is_clear.
        earlier t before (chargeable_can t ((precheck_charge_iff mandate amount t).0 is_clear)),
  )
  in_words no_date never =
      λ t is_clear. never t (chargeable_can t ((precheck_charge_iff mandate amount t).0 is_clear))
  in_words division_error h = h

  -- For a mandate of a fixed positive amount that a period allows, with periods of some length,
  -- the dashboard's date is the first instant at which the API's precheck lets that amount
  -- through (neither waits for an interval before a first charge), no date is shown exactly where
  -- the precheck never does, and nothing is thrown.
  pub next_date-precheck :
      amount ≤ mandate.max_per_period → IsFirstClear (compute_next_eligible_charge_date mandate)
  next_date-precheck payable =
      in_words _
        (compute_next_eligible_charge_date-IsNext mandate period (omega (arith, probed, payable)))
