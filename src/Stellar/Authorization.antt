-- ===== src/Stellar/Authorization.antt =====
-- packages/stellar/src/merchant-authorization.ts: what a signed authorization of a charge must hold.
-- The XDR codec, the hash and the signatures of the Stellar SDK are given by `StellarSdk`.
pub mod Laws
use stellar_journey.Base.{
  ℕ, String, Bool, true, false, not, ◌&&◌, ◌||◌, Option, none, some, List, [], ◌∷◌, str_eq, ltb,
  ◌==◌, if◌then◌else◌,
}
use stellar_journey.Base.Effect.{Result, returned, thrown}
use stellar_journey.Shared.HexId.{hex_id32}

pub record ChargeAuthorizationArgs : Type 0 where
  pub mandate_id : String
  pub charge_id : String
  pub amount : ℕ
  pub invoice_hash : String

pub record ChargeAuthorizationContext : Type 0 where
  pub contract_id : String
  pub network_passphrase : String
  pub merchant_address : String

-- The root invocation, without sub-invocations: its byte arguments by their digits.
pub record Invocation : Type 0 where
  pub contract_id : String
  pub function_name : String
  pub mandate_id : List ℕ
  pub charge_id : List ℕ
  pub amount : ℕ
  pub invoice_hash : List ℕ

pub record Signature : Type 0 where
  pub public_key : String
  pub signature : String

-- A signer, whose signatures are `none` where they are not the standard ones.
pub record Signer : Type 0 where
  pub signatures : Option (List Signature)

-- What `inspectAuthEntry` says of an entry.
pub record EntryInfo : Type 0 where
  pub credential_type : String
  pub address : Option String
  pub signature_expiration_ledger : Option ℕ
  pub invocation_xdr : String
  pub signers : List Signer

pub record Readiness : Type 0 where
  pub ready : Bool
  pub expired : Bool

pub record StellarSdk : Type 0 where
  -- The number of bytes that a base64 text decodes to.
  pub raw_size : String → ℕ
  -- `fromXDR` and `inspectAuthEntry`; `none` where they throw.
  pub inspect : String → Option EntryInfo
  pub readiness : String → ℕ → Readiness
  pub is_address : String → Bool
  pub invocation_xdr : Invocation → String
  -- An unsigned entry of an invocation, for a signer's address and an expiry, with a fresh nonce.
  pub unsigned_entry_xdr : String → Invocation → ℕ → String
  -- The hash of the preimage of an entry, at an expiry and a passphrase.
  pub preimage_hash : String → ℕ → String → String
  -- Whether a public key's signature of a hash is valid.
  pub verifies : String → String → String → Bool

abbrev pub max_entry_size : ℕ
max_entry_size = 32768

pub record ValidateChargeAuthorizationInput : Type 0 where
  pub signed_entry_xdr : String
  pub context : ChargeAuthorizationContext
  pub args : ChargeAuthorizationArgs
  pub current_ledger_seq : ℕ
  pub expected_expiration_ledger : Option ℕ

-- What a validation gives: the expiry, or the message of its error.
abbrev pub Validation : Type 0
Validation = Result String ℕ

-- An optional expectation.
abbrev pub unexpected : Option ℕ → ℕ → Bool
unexpected none actual = false
unexpected (some expected) actual = not (actual == expected)

abbrev pub is_address_of : String → Option String → Bool
is_address_of merchant none = false
is_address_of merchant (some address) = str_eq address merchant

module _ (sdk : StellarSdk) where
  abbrev pub invocation_of :
      String → ℕ → Option (List ℕ) → Option (List ℕ) → Option (List ℕ) → Option Invocation
  invocation_of contract_id amount (some mandate_id) (some charge_id) (some invoice_hash) =
      some (record {
        contract_id = contract_id;
        function_name = "charge";
        mandate_id = mandate_id;
        charge_id = charge_id;
        amount = amount;
        invoice_hash = invoice_hash;
      })
  invocation_of contract_id amount _ _ _ = none

  -- `none` where an id is not of 32 bytes or the contract is no address.
  unfoldable pub build_charge_authorization_invocation :
      String → ChargeAuthorizationArgs → Option Invocation
  build_charge_authorization_invocation contract_id args =
      if sdk.is_address contract_id
      then invocation_of contract_id args.amount (hex_id32 args.mandate_id)
          (hex_id32 args.charge_id) (hex_id32 args.invoice_hash)
      else none

  abbrev pub entry_of : Bool → String → ℕ → Option Invocation → Option String
  entry_of true merchant expiration (some invocation) =
      some (sdk.unsigned_entry_xdr merchant invocation expiration)
  entry_of _ merchant expiration _ = none

  -- `none` where the invocation cannot be built or the merchant is no address.
  unfoldable pub create_unsigned_charge_authorization :
      ChargeAuthorizationContext → ChargeAuthorizationArgs → ℕ → Option String
  create_unsigned_charge_authorization context args expiration =
      entry_of (sdk.is_address context.merchant_address) context.merchant_address expiration
        (build_charge_authorization_invocation context.contract_id args)

  module _ (input : ValidateChargeAuthorizationInput) where
    abbrev pub merchant : String
    merchant = input.context.merchant_address

    -- The one signature, by the merchant, of the preimage.
    unfoldable pub check_signature : ℕ → Signature → Validation
    check_signature expiration s =
        if not (str_eq s.public_key merchant)
        then thrown "Authorization must contain exactly one standard merchant signature."
        else (if not (
              sdk.verifies merchant
                (sdk.preimage_hash input.signed_entry_xdr expiration
                  input.context.network_passphrase)
                s.signature)
            then thrown "Authorization signature is invalid."
            else returned expiration)

    abbrev pub check_signatures : ℕ → Option (List Signature) → Validation
    check_signatures expiration (some (s ∷ [])) = check_signature expiration s
    check_signatures expiration _ =
        thrown "Authorization must contain exactly one standard merchant signature."

    abbrev pub check_signers : ℕ → List Signer → Validation
    check_signers expiration (signer ∷ []) = check_signatures expiration signer.signatures
    check_signers expiration _ =
        thrown "Authorization must contain exactly one standard merchant signature."

    unfoldable pub check_invocation : EntryInfo → ℕ → Option Invocation → Validation
    check_invocation info expiration none = thrown "expected 32 bytes encoded as hexadecimal"
    check_invocation info expiration (some expected) =
        if not (str_eq info.invocation_xdr (sdk.invocation_xdr expected))
        then thrown "Authorization invocation does not match the charge request."
        else check_signers expiration info.signers

    unfoldable pub check_expiration : EntryInfo → Readiness → Option ℕ → Validation
    check_expiration info readiness none =
        thrown
          (if readiness.expired then "Authorization has expired." else "Authorization is unsigned.")
    check_expiration info readiness (some expiration) =
        if not readiness.ready
        then thrown (
            if readiness.expired
            then "Authorization has expired."
            else "Authorization is unsigned.")
        else (if unexpected input.expected_expiration_ledger expiration
            then thrown "Authorization expiry differs from the issued challenge."
            else check_invocation info expiration
                (build_charge_authorization_invocation input.context.contract_id input.args))

    unfoldable pub check_entry : Option EntryInfo → Validation
    check_entry none = thrown "invalid XDR"
    check_entry (some info) =
        if not (str_eq info.credential_type "address") || not (is_address_of merchant info.address)
        then thrown "Authorization signer does not match the merchant."
        else check_expiration info (sdk.readiness input.signed_entry_xdr input.current_ledger_seq)
            info.signature_expiration_ledger

    unfoldable pub validate_charge_authorization : Validation
    validate_charge_authorization =
        if sdk.raw_size input.signed_entry_xdr == 0
          || ltb max_entry_size (sdk.raw_size input.signed_entry_xdr)
        then thrown "Signed authorization XDR has an invalid size."
        else check_entry (sdk.inspect input.signed_entry_xdr)
