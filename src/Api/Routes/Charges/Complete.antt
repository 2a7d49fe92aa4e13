-- ===== src/Api/Routes/Charges/Complete.antt =====
-- apps/api/src/routes/charges.ts: a signed authorization is completed, and its charge queued.
use stellar_journey.Base.{
  ℕ, String, Bool, true, false, not, ◌&&◌, ◌||◌, Option, none, some, ◌∷◌, str_eq, ltb, ◌==◌, length,
  codes, find_where, count_where, update_where,
}
use stellar_journey.Base.Effect.{
  returned, thrown, pure, throw, gets, or_throw, ◌>>=◌, ◌>>◌, modify, throw_if, transaction,
}
use stellar_journey.Stellar.Authorization.{
  ValidateChargeAuthorizationInput, Validation, validate_charge_authorization,
}
use stellar_journey.Store.{
  ChargeRequest, ChargeAuthorization, AuthorizationStatus, pending_signature, ready, Merchant,
  World, api_error, database_error, rejected, Job, holds, is_charge,
}
use stellar_journey.Api.ChargeStatus.{scheduled}
use stellar_journey.Api.Routes.{
  validation_error, resolve_asset_decimals_for_mandate, fresh, get_latest_ledger,
}
use stellar_journey.Api.Routes.Charges.{
  ChargeRequestResponse, ChargeDeps, to_charge_request_response, is_authorization_of,
}

abbrev pub is_pending : AuthorizationStatus → Bool
is_pending pending_signature = true
is_pending _ = false

abbrev pub is_open_authorization : String → String → ChargeAuthorization → Bool
is_open_authorization merchant_id id row =
    is_authorization_of merchant_id id row && is_pending row.status

-- The request of an authorization, which the unique index allows once.
abbrev pub is_request_of : String → ChargeRequest → Bool
is_request_of authorization_id row = holds authorization_id row.authorization_id

abbrev pub has_charge_id : String → ChargeRequest → Bool
has_charge_id charge_id row = str_eq row.charge_id charge_id

module _ (deps : ChargeDeps) (merchant : Merchant) where
  abbrev pub answer : ℕ → String → ChargeRequest → Job (ℕ × ChargeRequestResponse)
  answer status mandate_id row = do
    decimals ← resolve_asset_decimals_for_mandate merchant.id mandate_id
    pure (status, to_charge_request_response row decimals)

  abbrev pub validation_input : ChargeAuthorization → String → ℕ → ValidateChargeAuthorizationInput
  validation_input authorization signed latest = record {
    signed_entry_xdr = signed;
    context = record {
      contract_id = authorization.contract_id;
      network_passphrase = authorization.network_passphrase;
      merchant_address = merchant.wallet_address;
    };
    args = record {
      mandate_id = authorization.mandate_id;
      charge_id = authorization.charge_id;
      amount = authorization.amount;
      invoice_hash = authorization.invoice_hash;
    };
    current_ledger_seq = latest;
    expected_expiration_ledger = some authorization.signature_expiration_ledger;
  }

  abbrev pub accept_validation : Validation → Job (Unit {0})
  accept_validation (returned expiration) = pure tt
  accept_validation (thrown message) = throw (api_error 400 "INVALID_CHARGE_AUTHORIZATION")

  -- `chargeRequest.create`, with the schema's defaults.
  abbrev pub request_row : String → ℕ → ChargeAuthorization → ChargeRequest
  request_row id clock authorization = record {
    id = id;
    merchant_id = merchant.id;
    mandate_id = authorization.mandate_id;
    charge_id = authorization.charge_id;
    amount = authorization.amount;
    invoice_hash = authorization.invoice_hash;
    scheduled_for = authorization.scheduled_for;
    status = scheduled;
    attempt_count = 0;
    failure_code = none;
    transaction_hash = none;
    next_attempt_at = none;
    authorization_id = some authorization.id;
    created_at = clock;
    updated_at = clock;
  }

  abbrev pub add_request : ChargeRequest → World → World
  add_request row w = record w { charge_requests = row ∷ w.charge_requests }

  -- The primary key, and the unique indexes on the charge and on the authorization.
  abbrev pub clashes : ChargeRequest → ChargeRequest → Bool
  clashes row other =
      is_charge row.id other
      || has_charge_id row.charge_id other
      || same_authorization row.authorization_id other
    where
      same_authorization : Option String → ChargeRequest → Bool
      same_authorization none other = false
      same_authorization (some id) other = is_request_of id other

  unfoldable pub create_request : ChargeAuthorization → Job ChargeRequest
  create_request authorization = do
    id ← fresh deps.uuid
    clock ← gets (λ w. w.clock)
    let row = request_row id clock authorization
    taken ← gets (λ w. count_where (clashes row) w.charge_requests)
    throw_if (not (taken == 0)) (database_error "P2002")
    modify (add_request row)
    pure row

  abbrev pub signed_row : String → ChargeAuthorization → ChargeAuthorization
  signed_row ciphertext row = record row {
    status = ready;
    signed_entry_ciphertext = some ciphertext;
  }

  -- The row of a worker that came first, or the refusal.
  abbrev pub lost_completion : Option ChargeRequest → Job ChargeRequest
  lost_completion existing = or_throw existing (api_error 409 "CHARGE_AUTHORIZATION_ALREADY_USED")

  abbrev pub create_once : Bool → ChargeAuthorization → Job ChargeRequest
  create_once true authorization = create_request authorization
  create_once false authorization = do
    existing ← gets (λ w. find_where (is_request_of authorization.id) w.charge_requests)
    lost_completion existing

  -- The transaction that marks the authorization as ready and queues its charge.
  unfoldable pub queue_charge : ChargeAuthorization → String → Job ChargeRequest
  queue_charge authorization ciphertext = transaction (do
    updated ←
        gets
          (λ w. count_where (is_open_authorization merchant.id authorization.id) w.authorizations)
    modify (λ w. record w {
      authorizations =
          update_where (is_open_authorization merchant.id authorization.id) (signed_row ciphertext)
            w.authorizations;
    })
    create_once (updated == 1) authorization)

  -- `CompleteChargeAuthorizationSchema`.
  abbrev pub bad_size : String → Bool
  bad_size signed = length (codes signed) == 0 || ltb 65536 (length (codes signed))

  -- What follows the checks, from the last step to the first.
  unfoldable pub complete_valid : ChargeAuthorization → String → Job (ℕ × ChargeRequestResponse)
  complete_valid authorization signed = do
    ciphertext ← or_throw (deps.encrypt signed) rejected
    row ← queue_charge authorization ciphertext
    answer 201 authorization.mandate_id row

  unfoldable pub complete_at : ChargeAuthorization → String → ℕ → Job (ℕ × ChargeRequestResponse)
  complete_at authorization signed latest = do
    accept_validation
        (validate_charge_authorization deps.sdk (validation_input authorization signed latest))
    complete_valid authorization signed

  unfoldable pub complete_pending : ChargeAuthorization → String → Job (ℕ × ChargeRequestResponse)
  complete_pending authorization signed = do
    throw_if (not (is_pending authorization.status))
        (api_error 409 "CHARGE_AUTHORIZATION_NOT_PENDING")
    latest ← get_latest_ledger deps.reader
    complete_at authorization signed latest

  -- With the request of the authorization, where there is one.
  abbrev pub complete_found :
      ChargeAuthorization → String → Option ChargeRequest → Job (ℕ × ChargeRequestResponse)
  complete_found authorization signed (some row) = answer 200 authorization.mandate_id row
  complete_found authorization signed none = complete_pending authorization signed

  abbrev pub complete_read : String → ChargeAuthorization → Job (ℕ × ChargeRequestResponse)
  complete_read signed authorization = do
    existing ← gets (λ w. find_where (is_request_of authorization.id) w.charge_requests)
    complete_found authorization signed existing

  unfoldable pub complete_charge_authorization : String → String → Job (ℕ × ChargeRequestResponse)
  complete_charge_authorization id signed = do
    throw_if (bad_size signed) validation_error
    found ← gets (λ w. find_where (is_authorization_of merchant.id id) w.authorizations)
    authorization ← or_throw found (api_error 404 "CHARGE_AUTHORIZATION_NOT_FOUND")
    complete_read signed authorization
