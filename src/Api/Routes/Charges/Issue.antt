-- ===== src/Api/Routes/Charges/Issue.antt =====
-- apps/api/src/routes/charges.ts: the authorization of a charge is issued.
use stellar_journey.Base.{
  ℕ, ◌+◌, ◌-◌, ◌/◌, String, not, ◌&&◌, Option, none, some, ◌∷◌, str_eq, ltb, ◌==◌, count_where,
}
use stellar_journey.Base.Effect.{pure, throw, gets, or_throw, ◌>>=◌, ◌>>◌, modify, throw_if}
use stellar_journey.Client.Mandate.{Mandate}
use stellar_journey.Shared.HexId.{is_hex_id32}
use stellar_journey.Shared.Money.{Units, base_units_to_decimal_string}
use stellar_journey.Stellar.Authorization.{
  ChargeAuthorizationArgs, ChargeAuthorizationContext, create_unsigned_charge_authorization,
}
use stellar_journey.Store.{
  ChargeAuthorization, pending_signature, Merchant, World, Fault, api_error, database_error,
  rejected, Job,
}
use stellar_journey.Api.Precheck.{Precheck, clear, refused, division_error, precheck_charge}
use stellar_journey.Api.HttpErrors.{mandate_error_to_api_error}
use stellar_journey.Api.Idempotency.{
  IdempotentHandlerResult, IdempotentOutcome, on_store, run_idempotent,
}
use stellar_journey.Api.Routes.{
  Route, validation_error, is_decimal_amount, require_idempotency_key,
  resolve_asset_decimals_for_mandate, positive_amount, fresh, require_mandate, get_latest_ledger,
}
use stellar_journey.Api.Routes.Charges.{CreateCharge, IssuedAuthorization, ChargeDeps}

abbrev pub ledger_seconds_estimate : ℕ
ledger_seconds_estimate = 5

abbrev pub authorization_execution_margin_ledgers : ℕ
authorization_execution_margin_ledgers = 720

abbrev pub max_authorization_ttl_ledgers : ℕ
max_authorization_ttl_ledgers = 400000

-- Seconds from now to a time, rounded up; none for a time that is over.
abbrev pub scheduled_delay_seconds : ℕ → ℕ → ℕ
scheduled_delay_seconds now scheduled_for = (scheduled_for - now + 999) / 1000

unfoldable pub expiration_ledger : ℕ → ℕ → ℕ → ℕ
expiration_ledger latest now scheduled_for =
    latest
    + (scheduled_delay_seconds now scheduled_for + 4) / ledger_seconds_estimate
    + authorization_execution_margin_ledgers

abbrev pub refuse_precheck : Precheck → Job (Unit {0})
refuse_precheck clear = pure tt
refuse_precheck (refused info) = throw (mandate_error_to_api_error info)
refuse_precheck division_error = throw rejected

abbrev pub beyond_ttl : Fault
beyond_ttl = api_error 400 "SCHEDULE_EXCEEDS_AUTHORIZATION_TTL"

abbrev pub mandate_not_found : Fault
mandate_not_found = api_error 404 "MandateNotFound"

-- `scheduledFor` of a body; `none` where its schema refuses it.
abbrev pub parse_schedule : (String → Option ℕ) → Option String → Option (Option ℕ)
parse_schedule parse none = some none
parse_schedule parse (some text) = some_time (parse text)
  where
    some_time : Option ℕ → Option (Option ℕ)
    some_time none = none
    some_time (some time) = some (some time)

abbrev pub or_now : Option ℕ → ℕ → ℕ
or_now none now = now
or_now (some time) now = time

pub record ChargeCheck : Type 0 where
  pub amount : ℕ
  pub decimals : ℕ
  pub scheduled_for : ℕ
  pub expiration : ℕ

module _ (deps : ChargeDeps) (merchant : Merchant) where
  abbrev pub context : ChargeAuthorizationContext
  context = record {
    contract_id = deps.contract_id;
    network_passphrase = deps.network_passphrase;
    merchant_address = merchant.wallet_address;
  }

  abbrev pub authorization_row :
      String → ChargeAuthorizationArgs → ℕ → ℕ → String → ChargeAuthorization
  authorization_row id args scheduled_for expiration unsigned = record {
    id = id;
    merchant_id = merchant.id;
    mandate_id = args.mandate_id;
    charge_id = args.charge_id;
    amount = args.amount;
    invoice_hash = args.invoice_hash;
    scheduled_for = scheduled_for;
    network_passphrase = deps.network_passphrase;
    contract_id = deps.contract_id;
    unsigned_entry_xdr = unsigned;
    signed_entry_ciphertext = none;
    signature_expiration_ledger = expiration;
    status = pending_signature;
    consumed_at = none;
  }

  abbrev pub issued : ChargeAuthorization → ℕ → String → IssuedAuthorization
  issued row decimals preimage = record {
    id = row.id;
    mandate_id = row.mandate_id;
    charge_id = row.charge_id;
    amount = base_units_to_decimal_string row.amount decimals;
    invoice_hash = row.invoice_hash;
    scheduled_for = row.scheduled_for;
    merchant_address = merchant.wallet_address;
    contract_id = deps.contract_id;
    network_passphrase = deps.network_passphrase;
    signature_expiration_ledger = row.signature_expiration_ledger;
    unsigned_authorization_entry_xdr = row.unsigned_entry_xdr;
    authorization_preimage_xdr = preimage;
    status = row.status;
  }

  abbrev pub add_authorization : ChargeAuthorization → World → World
  add_authorization row w = record w { authorizations = row ∷ w.authorizations }

  abbrev pub charge_args : String → String → ChargeCheck → String → ChargeAuthorizationArgs
  charge_args mandate_id invoice_hash check charge_id = record {
    mandate_id = mandate_id;
    charge_id = charge_id;
    amount = check.amount;
    invoice_hash = invoice_hash;
  }

  -- `chargeAuthorization.create`, with the unique index on the charge, and the answer.
  unfoldable pub store_authorization :
      ChargeAuthorizationArgs → ChargeCheck → String → Job IdempotentHandlerResult
  store_authorization args check unsigned = do
    id ← fresh deps.uuid
    taken ← gets (λ w. count_where (λ row. str_eq row.charge_id args.charge_id) w.authorizations)
    throw_if (not (taken == 0)) (database_error "P2002")
    let row = authorization_row id args check.scheduled_for check.expiration unsigned
    modify (add_authorization row)
    preimage ← or_throw (deps.preimage_xdr unsigned deps.network_passphrase) rejected
    pure (record { status = 201; body = deps.print (issued row check.decimals preimage) })

  -- The handler under the idempotency key.
  unfoldable pub new_authorization : String → String → ChargeCheck → Job IdempotentHandlerResult
  new_authorization mandate_id invoice_hash check = do
    charge_id ← fresh deps.random_hex_id
    let args = charge_args mandate_id invoice_hash check charge_id
    unsigned ←
        or_throw (create_unsigned_charge_authorization deps.sdk context args check.expiration)
          rejected
    store_authorization args check unsigned

  -- What is checked before the key is looked at, from the last check to the first.
  abbrev pub within_ttl : ChargeCheck → ℕ → Job ChargeCheck
  within_ttl check latest = do
    throw_if (ltb max_authorization_ttl_ledgers (check.expiration - latest)) beyond_ttl
    pure check

  abbrev pub checked_at : ℕ → ℕ → ℕ → ℕ → ℕ → ChargeCheck
  checked_at amount decimals now scheduled_for latest = record {
    amount = amount;
    decimals = decimals;
    scheduled_for = scheduled_for;
    expiration = expiration_ledger latest now scheduled_for;
  }

  abbrev pub check_ledger : ℕ → ℕ → Option ℕ → ℕ → ℕ → Job ChargeCheck
  check_ledger amount decimals schedule now latest =
      within_ttl (checked_at amount decimals now (or_now schedule now) latest) latest

  abbrev pub check_precheck : ℕ → ℕ → Option ℕ → Mandate → ℕ → Job ChargeCheck
  check_precheck amount decimals schedule mandate now = do
    refuse_precheck (precheck_charge mandate amount (now / 1000))
    latest ← get_latest_ledger deps.reader
    check_ledger amount decimals schedule now latest

  abbrev pub check_mandate : ℕ → ℕ → Option ℕ → Mandate → Job ChargeCheck
  check_mandate amount decimals schedule mandate = do
    throw_if (not (str_eq mandate.merchant merchant.wallet_address)) mandate_not_found
    now ← gets (λ w. w.clock)
    check_precheck amount decimals schedule mandate now

  abbrev pub check_amount : String → Option ℕ → ℕ → ℕ → Job ChargeCheck
  check_amount mandate_id schedule decimals amount = do
    mandate ← require_mandate deps.reader mandate_not_found mandate_id
    check_mandate amount decimals schedule mandate

  abbrev pub check_decimals : String → Units → Option ℕ → ℕ → Job ChargeCheck
  check_decimals mandate_id decimal schedule decimals = do
    amount ← positive_amount decimal decimals
    check_amount mandate_id schedule decimals amount

  unfoldable pub check_charge : String → Units → Option ℕ → Job ChargeCheck
  check_charge mandate_id decimal schedule = do
    decimals ← resolve_asset_decimals_for_mandate merchant.id mandate_id
    check_decimals mandate_id decimal schedule decimals

  abbrev pub issue_checked :
      String → String → String → String → ChargeCheck → Route IdempotentOutcome
  issue_checked key request_hash mandate_id invoice_hash check =
      run_idempotent merchant.id key request_hash (new_authorization mandate_id invoice_hash check)

  abbrev pub issue_scheduled :
      String → String → String → CreateCharge → Option ℕ → Route IdempotentOutcome
  issue_scheduled key request_hash mandate_id input schedule = do
    check ← on_store (check_charge mandate_id input.amount schedule)
    issue_checked key request_hash mandate_id input.invoice_hash check

  abbrev pub issue_parsed : String → String → CreateCharge → String → Route IdempotentOutcome
  issue_parsed request_hash mandate_id input key = do
    throw_if
        (not (
          is_hex_id32 mandate_id
          && is_hex_id32 input.invoice_hash
          && is_decimal_amount input.amount))
        validation_error
    schedule ← or_throw (parse_schedule deps.parse_date input.scheduled_for) validation_error
    issue_scheduled key request_hash mandate_id input schedule

  unfoldable pub issue_charge_authorization :
      Option String → String → String → CreateCharge → Route IdempotentOutcome
  issue_charge_authorization header request_hash mandate_id input = do
    key ← require_idempotency_key header
    issue_parsed request_hash mandate_id input key
