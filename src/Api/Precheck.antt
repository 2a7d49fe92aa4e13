-- ===== src/Api/Precheck.antt =====
-- apps/api/src/chain/precheck.ts: the test of a charge before it is queued. An amount is positive
-- base units as the routes parse it, so it is never negative here.
pub mod Laws
use stellar_journey.Base.{
  ℕ, ◌+◌, ◌-◌, ◌*◌, ◌/◌, String, Bool, true, false, not, ◌&&◌, Option, none, some, leb, ltb, ◌==◌,
  if◌then◌else◌,
}
use stellar_journey.Stellar.Errors.{MandateErrorInfo, decode_mandate_error_name}
use stellar_journey.Client.Mandate.{
  MandateStatus, active, paused, revoked, completed, expired, AmountRule, fixed, variable, Mandate,
}

-- `null`, a contract error, or the throw of a division by zero.
pub data Precheck : Type 0 where
  clear : Precheck
  refused : MandateErrorInfo → Precheck
  division_error : Precheck

abbrev pub refuse : String → Precheck
refuse name = refused (decode_mandate_error_name name)

abbrev pub exceeds_rule : AmountRule → ℕ → Bool
exceeds_rule (fixed exact) amount = not (amount == exact)
exceeds_rule (variable max_per_charge) amount = ltb max_per_charge amount

abbrev pub too_soon : Mandate → Option ℕ → ℕ → Bool
too_soon mandate none now = false
too_soon mandate (some last) now = ltb now (last + mandate.min_interval_seconds)

module _ (mandate : Mandate) (amount now : ℕ) where
  abbrev pub computed_period_start : ℕ
  computed_period_start =
      mandate.start_at + (now - mandate.start_at) / mandate.period_seconds * mandate.period_seconds

  abbrev pub effective_period_collected : ℕ
  effective_period_collected =
      if not (computed_period_start == mandate.current_period_start)
      then 0
      else mandate.current_period_collected

  -- Steps 11 and 12.
  unfoldable pub check_period : Precheck
  check_period =
      if mandate.period_seconds == 0
      then division_error
      else (if ltb mandate.max_per_period (effective_period_collected + amount)
          then refuse "AmountExceedsPeriodLimit"
          else clear)

  -- Steps 3 to 10.
  unfoldable pub check_active : Precheck
  check_active =
      if ltb now mandate.start_at
      then refuse "ChargeBeforeStart"
      else (if leb mandate.expires_at now
          then refuse "MandateExpired"
          else (if amount == 0
              then refuse "InvalidAmount"
              else (if exceeds_rule mandate.amount_rule amount
                  then refuse "AmountExceedsChargeLimit"
                  else (if too_soon mandate mandate.last_charged_at now
                      then refuse "ChargeTooSoon"
                      else (if not (mandate.max_successful_charges == 0)
                            && leb mandate.max_successful_charges mandate.successful_charges
                          then refuse "ChargeCountExceeded"
                          else check_period)))))

  -- Step 2, and the steps that follow for an active mandate.
  abbrev pub check_status : MandateStatus → Precheck
  check_status active = check_active
  check_status paused = refuse "MandatePaused"
  check_status revoked = refuse "MandateRevoked"
  check_status completed = refuse "MandateCompleted"
  check_status expired = refuse "MandateExpired"

  unfoldable pub precheck_charge : Precheck
  precheck_charge = check_status mandate.status
