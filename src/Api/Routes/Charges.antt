-- ===== src/Api/Routes/Charges.antt =====
-- apps/api/src/routes/charges.ts: the authorization of a charge is issued, signed by the merchant's wallet
-- and completed, which queues the charge. Issue and Complete hold the handlers, Issuing and Completing what
-- they guarantee, Reading the handlers that read. The log lines are left out.
pub mod Issue
pub mod Complete
pub mod Queuing
pub mod Completing
pub mod Checking
pub mod Issuing
pub mod Reading
use stellar_journey.Base.{
  ℕ, suc, ◌+◌, ◌-◌, ◌/◌, String, Bool, true, false, not, ◌&&◌, ◌||◌, Option, none, some, List, [],
  ◌∷◌, map, str_eq, ltb, leb, ◌==◌, length, codes, if◌then◌else◌, find_where, count_where,
  update_where,
}
use stellar_journey.Base.Effect.{
  Result, returned, thrown, pure, throw, gets, or_throw, ◌>>=◌, ◌>>◌, modify, throw_if, transaction,
}
use stellar_journey.Client.Mandate.{Mandate}
use stellar_journey.Shared.HexId.{is_hex_id32}
use stellar_journey.Shared.Money.{Units, base_units_to_decimal_string}
use stellar_journey.Stellar.Authorization.{
  StellarSdk, ChargeAuthorizationArgs, ChargeAuthorizationContext, ValidateChargeAuthorizationInput,
  Validation, create_unsigned_charge_authorization, validate_charge_authorization,
}
use stellar_journey.Store.{
  ChargeRequest, ChargeAuthorization, AuthorizationStatus, pending_signature, ready, Merchant,
  World, Fault, api_error, database_error, rejected, Job, is_authorization, holds,
}
use stellar_journey.Api.ChargeStatus.{ChargeRequestStatus, scheduled}
use stellar_journey.Api.Precheck.{Precheck, clear, refused, division_error, precheck_charge}
use stellar_journey.Api.HttpErrors.{mandate_error_to_api_error}
use stellar_journey.Api.Idempotency.{
  IdempotentHandlerResult, IdempotentOutcome, on_store, run_idempotent,
}
use stellar_journey.Api.Routes.{
  MandateReader, Route, validation_error, is_decimal_amount, require_idempotency_key,
  resolve_asset_decimals_for_mandate, positive_amount, fresh, require_mandate, get_latest_ledger,
}

pub record CreateCharge : Type 0 where
  pub amount : Units
  pub invoice_hash : String
  pub scheduled_for : Option String

-- The body of an issued authorization, before it is printed.
pub record IssuedAuthorization : Type 0 where
  pub id : String
  pub mandate_id : String
  pub charge_id : String
  pub amount : Units
  pub invoice_hash : String
  pub scheduled_for : ℕ
  pub merchant_address : String
  pub contract_id : String
  pub network_passphrase : String
  pub signature_expiration_ledger : ℕ
  pub unsigned_authorization_entry_xdr : String
  pub authorization_preimage_xdr : String
  pub status : AuthorizationStatus

pub record ChargeRequestResponse : Type 0 where
  pub id : String
  pub mandate_id : String
  pub charge_id : String
  pub amount : Units
  pub invoice_hash : String
  pub scheduled_for : ℕ
  pub status : ChargeRequestStatus
  pub attempt_count : ℕ
  pub failure_code : Option String
  pub transaction_hash : Option String
  pub created_at : ℕ

pub record ChargeDeps : Type 0 where
  pub reader : MandateReader
  pub sdk : StellarSdk
  pub contract_id : String
  pub network_passphrase : String
  -- `Date.parse`; `none` where it is not a number.
  pub parse_date : String → Option ℕ
  -- `randomHexId32` and the database's `uuid()`.
  pub random_hex_id : ℕ → String
  pub uuid : ℕ → String
  -- `authorizationPreimageXdr` and `encryptChargeAuthorization`; `none` where they throw.
  pub preimage_xdr : String → String → Option String
  pub encrypt : String → Option String
  pub print : IssuedAuthorization → String

unfoldable pub to_charge_request_response : ChargeRequest → ℕ → ChargeRequestResponse
to_charge_request_response row decimals = record {
  id = row.id;
  mandate_id = row.mandate_id;
  charge_id = row.charge_id;
  amount = base_units_to_decimal_string row.amount decimals;
  invoice_hash = row.invoice_hash;
  scheduled_for = row.scheduled_for;
  status = row.status;
  attempt_count = row.attempt_count;
  failure_code = row.failure_code;
  transaction_hash = row.transaction_hash;
  created_at = row.created_at;
}

abbrev pub is_authorization_of : String → String → ChargeAuthorization → Bool
is_authorization_of merchant_id id row =
    is_authorization id row && str_eq row.merchant_id merchant_id
