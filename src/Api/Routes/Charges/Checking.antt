-- ===== src/Api/Routes/Charges/Checking.antt =====
-- What is checked of a charge (apps/api/src/routes/charges.ts) before its authorization is issued.
use stellar_journey.Base.{
  ℕ, ◌+◌, ◌-◌, ◌*◌, ◌/◌, ◌≤◌, ◌≡◌, refl, subst, String, not, Option, some, arith, str_eq, eq_iff,
  ltb, not-false,
}
use stellar_journey.Base.Effect.{returned, and_then, pure, gets, ◌>>=◌}
use stellar_journey.Base.Effect.Inversion.{or_throw_inv, throw_if_inv}
use stellar_journey.Client.Mandate.{Mandate}
use stellar_journey.Shared.Money.{Units, decimal_to_positive_base_units}
use stellar_journey.Store.{
  Merchant, World, Job, api_error, rejected, read_mandate, read_ledger, log_call, product_of,
}
use stellar_journey.Api.Precheck.{Precheck, clear, refused, division_error, precheck_charge}
use stellar_journey.Api.Routes.{mandate_found, decimals_of, get_latest_ledger}
use stellar_journey.Api.Routes.Inversion.{mandate_or_inv}
use stellar_journey.Api.Routes.Charges.{ChargeDeps}
use stellar_journey.Api.Routes.Charges.Issue.{
  ChargeCheck, expiration_ledger, max_authorization_ttl_ledgers, beyond_ttl, mandate_not_found,
  or_now, refuse_precheck, checked_at, check_ledger, check_precheck, check_mandate, check_amount,
  check_decimals, check_charge, authorization_execution_margin_ledgers,
}

-- The signature stays valid for the margin, and for the time to the charge at five seconds to a ledger;
-- and not for longer than the network allows.
pub expiration_ledger_bounds :
    (latest now scheduled_for : ℕ)
    → (latest + authorization_execution_margin_ledgers ≤ expiration_ledger latest now scheduled_for)
      × (scheduled_for ≤ now + (expiration_ledger latest now scheduled_for - latest - 720) * 5000)
unfolding expiration_ledger
expiration_ledger_bounds latest now scheduled_for = (omega arith, omega arith)

refuse_precheck_inv :
    (k : Job ChargeCheck) (verdict : Precheck) (w w' : World) (c : ChargeCheck)
    → and_then (λ _. k) (refuse_precheck verdict w) ≡ (returned c, w')
    → (verdict ≡ clear) × (k w ≡ (returned c, w'))
refuse_precheck_inv k clear w w' c h = (refl, h)
refuse_precheck_inv k (refused info) w w' c h = absurd cc
refuse_precheck_inv k division_error w w' c h = absurd cc

module _ (deps : ChargeDeps) (merchant : Merchant) (mandate_id : String) (decimal : Units)
    (schedule : Option ℕ) where
  -- A charge that may be signed.
  pub record IsChecked (w : World) (c : ChargeCheck) : Type 0 where
    pub decimals : decimals_of (product_of merchant.id mandate_id w) ≡ some c.decimals
    pub amount : decimal_to_positive_base_units decimal c.decimals ≡ some c.amount
    pub mandate : Mandate
    pub read : deps.reader.get_mandate mandate_id ≡ mandate_found mandate
    pub owner : mandate.merchant ≡ merchant.wallet_address
    pub prechecked : precheck_charge mandate c.amount (w.clock / 1000) ≡ clear
    pub scheduled : c.scheduled_for ≡ or_now schedule w.clock
    pub latest : ℕ
    pub ledger : deps.reader.get_latest_ledger_sequence ≡ some latest
    pub lasts : latest + authorization_execution_margin_ledgers ≤ c.expiration
    pub reaches : c.scheduled_for ≤ w.clock + (c.expiration - latest - 720) * 5000
    pub bounded : c.expiration ≤ latest + max_authorization_ttl_ledgers

  pub check_charge-IsChecked :
      (w w' : World) (c : ChargeCheck)
      → check_charge deps merchant mandate_id decimal schedule w ≡ (returned c, w')
      → IsChecked w c × (w' ≡ log_call read_ledger (log_call (read_mandate mandate_id) w))
  unfolding check_charge
  check_charge-IsChecked w w' c h =
      let (decimals, known, h1) =
        or_throw_inv (check_decimals deps merchant mandate_id decimal schedule)
          (decimals_of (product_of merchant.id mandate_id w))
          (api_error 404 "MANDATE_NOT_LINKED_TO_PRODUCT") w h in
      let (amount, parsed, h2) =
        or_throw_inv (check_amount deps merchant mandate_id schedule decimals)
          (decimal_to_positive_base_units decimal decimals) (api_error 400 "INVALID_AMOUNT") w h1 in
      let w1 = log_call (read_mandate mandate_id) w in
      let (mandate, read, h3) =
        mandate_or_inv mandate_not_found (check_mandate deps merchant amount decimals schedule)
          (deps.reader.get_mandate mandate_id) w1 w' c h2 in
      let (owner, h4) =
        throw_if_inv
          (λ _.
            gets (λ v. v.clock) >>= check_precheck deps merchant amount decimals schedule mandate)
          (not (str_eq mandate.merchant merchant.wallet_address)) mandate_not_found w1 h3 in
      let (prechecked, h5) =
        refuse_precheck_inv
          (get_latest_ledger deps.reader
            >>= check_ledger deps merchant amount decimals schedule w.clock)
          (precheck_charge mandate amount (w.clock / 1000)) w1 w' c h4 in
      let (latest, ledger, h6) =
        or_throw_inv (check_ledger deps merchant amount decimals schedule w.clock)
          deps.reader.get_latest_ledger_sequence rejected (log_call read_ledger w1) h5 in
      let checked =
        checked_at deps merchant amount decimals w.clock (or_now schedule w.clock) latest in
      let (bounded, h7) =
        throw_if_inv (λ _. pure checked)
          (ltb max_authorization_ttl_ledgers (checked.expiration - latest)) beyond_ttl
          (log_call read_ledger w1) h6 in
      let same : checked ≡ c = cc h7 in
      (
        subst (IsChecked w) same (record {
          decimals = known;
          amount = parsed;
          mandate = mandate;
          read = read;
          owner = (eq_iff _ _).0 (not-false _ owner);
          prechecked = prechecked;
          scheduled = refl;
          latest = latest;
          ledger = ledger;
          lasts = (expiration_ledger_bounds latest w.clock (or_now schedule w.clock)).0;
          reaches = (expiration_ledger_bounds latest w.clock (or_now schedule w.clock)).1;
          bounded = ground arith;
        }),
        cc h7,
      )
