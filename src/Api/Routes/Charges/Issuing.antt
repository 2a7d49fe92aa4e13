-- ===== src/Api/Routes/Charges/Issuing.antt =====
-- What is true of a charge whose authorization is issued.
use stellar_journey.Base.{ℕ, suc, ◌≡◌, String, Option, none, some, ◌∷◌, count_where, str_eq}
use stellar_journey.Stellar.Authorization.{create_unsigned_charge_authorization}
use stellar_journey.Api.Idempotency.{IdempotentOutcome}
use stellar_journey.Store.{pending_signature, Merchant, World, read_mandate, read_ledger, log_call}
use stellar_journey.Api.Routes.Charges.{ChargeDeps, CreateCharge}
use stellar_journey.Api.Routes.Charges.Issue.{
  ChargeCheck, parse_schedule, context, charge_args, authorization_row,
}
use stellar_journey.Api.Routes.Charges.Checking.{IsChecked}

module _ (deps : ChargeDeps) (merchant : Merchant) where
  -- The authorization that an answer of 201 has stored, in a store that held `w`.
  pub record IsIssued (mandate_id : String) (input : CreateCharge) (w w' : World)
      (outcome : IdempotentOutcome) : Type 0 where
    pub schedule : Option ℕ
    pub parsed : parse_schedule deps.parse_date input.scheduled_for ≡ some schedule
    pub check : ChargeCheck
    pub checked : IsChecked deps merchant mandate_id input.amount schedule w check
    pub id : String
    pub charge_id : String
    pub drawn : charge_id ≡ deps.random_hex_id w.uuids
    pub new : count_where (λ row. str_eq row.charge_id charge_id) w.authorizations ≡ 0
    pub unsigned : String
    pub entry :
        create_unsigned_charge_authorization deps.sdk
          (context deps merchant)
          (charge_args deps merchant mandate_id input.invoice_hash check charge_id)
          check.expiration
        ≡ some unsigned
    -- Nothing else is written, but that ids are drawn and two reads of the chain are logged.
    pub written : w' ≡ record w {
      authorizations = w'.authorizations;
      uuids = suc (suc w.uuids);
      calls = (log_call read_ledger (log_call (read_mandate mandate_id) w)).calls;
    }
    pub stored :
        w'.authorizations
        ≡ authorization_row deps merchant id
            (charge_args deps merchant mandate_id input.invoice_hash check charge_id)
            check.scheduled_for
            check.expiration
            unsigned
          ∷ w.authorizations
    -- The row that is stored, column by column.
    pub as_checked :
        authorization_row deps merchant id
          (charge_args deps merchant mandate_id input.invoice_hash check charge_id)
          check.scheduled_for
          check.expiration
          unsigned
        ≡ record {
          id = id;
          merchant_id = merchant.id;
          mandate_id = mandate_id;
          charge_id = charge_id;
          amount = check.amount;
          invoice_hash = input.invoice_hash;
          scheduled_for = check.scheduled_for;
          network_passphrase = deps.network_passphrase;
          contract_id = deps.contract_id;
          unsigned_entry_xdr = unsigned;
          signed_entry_ciphertext = none;
          signature_expiration_ledger = check.expiration;
          status = pending_signature;
          consumed_at = none;
        }
    pub charges : w'.charge_requests ≡ w.charge_requests
    pub created : outcome.status ≡ 201
