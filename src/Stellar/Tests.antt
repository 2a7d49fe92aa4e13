-- ===== src/Stellar/Tests.antt =====
-- The validation of packages/stellar/src/merchant-authorization.ts on one signed entry.
use stellar_journey.Base.{◌≡◌, refl, String, true, false, some, [], ◌∷◌}
use stellar_journey.Base.Effect.{returned}
use stellar_journey.Stellar.Authorization.{
  StellarSdk, ValidateChargeAuthorizationInput, check_signature, check_invocation, check_expiration,
  check_entry, validate_charge_authorization,
}
use stellar_journey.Stellar.Authorization.Laws.{Authorizes, validate_charge_authorization_iff}

abbrev pub some_id : String
some_id = "00000000000000000000000000000000000000000000000000000000000000aF"

-- A codec that decodes every text to the same signed entry.
abbrev pub sdk : StellarSdk
sdk = record {
  raw_size = λ s. 100;
  inspect = λ s. some (record {
    credential_type = "address";
    address = some "wallet";
    signature_expiration_ledger = some 900;
    invocation_xdr = "invocation";
    signers =
        record {
          signatures = some (record { public_key = "wallet"; signature = "signature" } ∷ []);
        }
        ∷ [];
  });
  readiness = λ s ledger. record { ready = true; expired = false };
  is_address = λ s. true;
  invocation_xdr = λ invocation. "invocation";
  unsigned_entry_xdr = λ signer invocation expiration. "unsigned";
  preimage_hash = λ s expiration passphrase. "hash";
  verifies = λ signer hash signature. true;
}

abbrev input : ValidateChargeAuthorizationInput
input = record {
  signed_entry_xdr = "signed";
  context = record {
    contract_id = "contract";
    network_passphrase = "network";
    merchant_address = "wallet";
  };
  args = record { mandate_id = some_id; charge_id = some_id; amount = 500; invoice_hash = some_id };
  current_ledger_seq = 10;
  expected_expiration_ledger = some 900;
}

accepts : validate_charge_authorization sdk input ≡ returned 900
unfolding validate_charge_authorization check_entry check_expiration check_invocation
    check_signature stellar_journey.Stellar.Authorization.build_charge_authorization_invocation
    stellar_journey.Shared.HexId.hex_id32 stellar_journey.Shared.HexId.hex_digits
accepts = refl

validate_charge_authorization_iff_example : Authorizes sdk input 900
validate_charge_authorization_iff_example =
    (validate_charge_authorization_iff sdk input 900).0 accepts
