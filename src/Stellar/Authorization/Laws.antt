-- ===== src/Stellar/Authorization/Laws.antt =====
-- What a validated authorization holds.
use stellar_journey.Base.{
  not-false, ℕ, ◌≤◌, ◌<◌, ◌≡◌, ◌↔◌, refl, ap, subst, Bool, true, false, not, ◌||◌, Option, none,
  some, List, [], ◌∷◌, String, eq_iff, eq_refl, arith, ltb, ◌==◌, if◌then◌else◌,
}
use stellar_journey.Base.Effect.{returned, thrown}
use stellar_journey.Stellar.Authorization.{
  Invocation, Signature, Signer, EntryInfo, Readiness, StellarSdk, max_entry_size, Validation,
  ValidateChargeAuthorizationInput, unexpected, is_address_of,
  build_charge_authorization_invocation, check_signature, check_signatures, check_signers,
  check_invocation, check_expiration, check_entry, validate_charge_authorization,
}

-- A test that throws, and was passed.
passed :
    (b : Bool) (message : String) (rest : Validation) (e : ℕ)
    → (if b then thrown message else rest) ≡ returned e
    → (b ≡ false) × (rest ≡ returned e)
passed true message rest e h = cc
passed false message rest e h = (refl, h)

neither : (a b : Bool) → (not a || not b) ≡ false → (a ≡ true) × (b ≡ true)
neither true true h = (refl, refl)
neither true false h = cc
neither false b h = cc

size_lem : (n : ℕ) → (n == 0 || ltb max_entry_size n) ≡ false → (0 < n) × (n ≤ max_entry_size)
size_lem n h = ground arith

sized : (n : ℕ) → (0 < n) × (n ≤ max_entry_size) → (n == 0 || ltb max_entry_size n) ≡ false
sized n h = ground arith

expected :
    (expected : Option ℕ) (e : ℕ)
    → ((x : ℕ) → expected ≡ some x → e ≡ x)
    → unexpected expected e ≡ false
expected none e h = refl
expected (some x) e h = let same = h x refl in ground arith

module _ (sdk : StellarSdk) (input : ValidateChargeAuthorizationInput) where
  -- The entry authorizes the very charge of the input until a ledger.
  pub record Authorizes (expiration : ℕ) : Type 0 where
    pub size :
        (0 < sdk.raw_size input.signed_entry_xdr)
        × (sdk.raw_size input.signed_entry_xdr ≤ max_entry_size)
    pub info : EntryInfo
    pub inspected : sdk.inspect input.signed_entry_xdr ≡ some info
    pub credentials : info.credential_type ≡ "address"
    pub address : info.address ≡ some input.context.merchant_address
    pub ready : (sdk.readiness input.signed_entry_xdr input.current_ledger_seq).ready ≡ true
    pub expires : info.signature_expiration_ledger ≡ some expiration
    pub as_issued : (e : ℕ) → input.expected_expiration_ledger ≡ some e → expiration ≡ e
    pub invocation : Invocation
    pub requested :
        build_charge_authorization_invocation sdk input.context.contract_id input.args
        ≡ some invocation
    pub same_invocation : info.invocation_xdr ≡ sdk.invocation_xdr invocation
    pub signature : Signature
    pub alone : info.signers ≡ record { signatures = some (signature ∷ []) } ∷ []
    pub signer : signature.public_key ≡ input.context.merchant_address
    pub valid :
        sdk.verifies input.context.merchant_address
          (sdk.preimage_hash input.signed_entry_xdr expiration input.context.network_passphrase)
          signature.signature
        ≡ true

  check_signature_sound :
      (expiration e : ℕ) (s : Signature)
      → check_signature sdk input expiration s ≡ returned e
      → (expiration ≡ e)
        × (s.public_key ≡ input.context.merchant_address)
        × (sdk.verifies input.context.merchant_address
              (sdk.preimage_hash input.signed_entry_xdr expiration input.context.network_passphrase)
              s.signature
            ≡ true)
  unfolding check_signature
  check_signature_sound expiration e s h =
      let (signer, rest) = passed _ _ _ e h in
      let (valid, end) = passed _ _ _ e rest in
      (cc end, (eq_iff _ _).0 (not-false _ signer), not-false _ valid)

  -- One signer with one standard signature.
  check_signatures_sound :
      (expiration e : ℕ) (signatures : Option (List Signature))
      → check_signatures sdk input expiration signatures ≡ returned e
      → (s : Signature) × (signatures ≡ some (s ∷ []))
        × (check_signature sdk input expiration s ≡ returned e)
  check_signatures_sound expiration e (some (s ∷ [])) h = (s, refl, h)
  check_signatures_sound expiration e (some []) h = cc
  check_signatures_sound expiration e (some (s ∷ t ∷ ss)) h = cc
  check_signatures_sound expiration e none h = cc

  check_signers_sound :
      (expiration e : ℕ) (signers : List Signer)
      → check_signers sdk input expiration signers ≡ returned e
      → (s : Signature) × (signers ≡ record { signatures = some (s ∷ []) } ∷ [])
        × (check_signature sdk input expiration s ≡ returned e)
  check_signers_sound expiration e [] h = cc
  check_signers_sound expiration e (a ∷ b ∷ cs) h = cc
  check_signers_sound expiration e (signer ∷ []) h =
      let (s, one, checked) = check_signatures_sound expiration e signer.signatures h in
      (s, ap (λ ss. record { signatures = ss } ∷ []) one, checked)

  check_invocation_sound :
      (info : EntryInfo) (expiration e : ℕ) (expected : Option Invocation)
      → check_invocation sdk input info expiration expected ≡ returned e
      → (invocation : Invocation) × (expected ≡ some invocation)
        × (info.invocation_xdr ≡ sdk.invocation_xdr invocation)
        × (check_signers sdk input expiration info.signers ≡ returned e)
  unfolding check_invocation
  check_invocation_sound info expiration e none h = cc
  check_invocation_sound info expiration e (some i) h =
      let (same, rest) = passed _ _ _ e h in (i, refl, (eq_iff _ _).0 (not-false _ same), rest)

  unexpected_lem :
      (expected : Option ℕ) (actual : ℕ)
      → unexpected expected actual ≡ false
      → (e : ℕ) → expected ≡ some e
      → actual ≡ e
  unexpected_lem none actual h e is = cc
  unexpected_lem (some expected) actual h e is = ground arith

  check_expiration_sound :
      (info : EntryInfo) (readiness : Readiness) (expires : Option ℕ) (e : ℕ)
      → check_expiration sdk input info readiness expires ≡ returned e
      → (expiration : ℕ) × (expires ≡ some expiration)
        × (readiness.ready ≡ true)
        × (unexpected input.expected_expiration_ledger expiration ≡ false)
        × (check_invocation sdk input info expiration
              (build_charge_authorization_invocation sdk input.context.contract_id input.args)
            ≡ returned e)
  unfolding check_expiration
  check_expiration_sound info readiness none e h = cc
  check_expiration_sound info readiness (some expiration) e h =
      let (ready, rest) = passed _ _ _ e h in
      let (as_issued, end) = passed _ _ _ e rest in
      (expiration, refl, not-false _ ready, as_issued, end)

  is_address_of_lem :
      (merchant : String) (address : Option String)
      → is_address_of merchant address ≡ true
      → address ≡ some merchant
  is_address_of_lem merchant none h = cc
  is_address_of_lem merchant (some address) h = ap some ((eq_iff address merchant).0 h)

  check_entry_sound :
      (found : Option EntryInfo) (e : ℕ)
      → check_entry sdk input found ≡ returned e
      → (info : EntryInfo) × (found ≡ some info)
        × (info.credential_type ≡ "address")
        × (info.address ≡ some input.context.merchant_address)
        × (check_expiration sdk input info
              (sdk.readiness input.signed_entry_xdr input.current_ledger_seq)
              info.signature_expiration_ledger
            ≡ returned e)
  unfolding check_entry
  check_entry_sound none e h = cc
  check_entry_sound (some info) e h =
      let (signer, rest) = passed _ _ _ e h in
      let (credentials, address) = neither _ _ signer in
      (
        info,
        refl,
        (eq_iff _ _).0 credentials,
        is_address_of_lem input.context.merchant_address info.address address,
        rest,
      )

  -- The conditions after the entry is read.
  of_parts :
      (size : (0 < sdk.raw_size input.signed_entry_xdr)
        × (sdk.raw_size input.signed_entry_xdr ≤ max_entry_size))
      (e : ℕ)
      → check_entry sdk input (sdk.inspect input.signed_entry_xdr) ≡ returned e
      → Authorizes e
  of_parts size e h =
      let (info, inspected, credentials, address, checked) = check_entry_sound _ e h in
      let (expiration, expires, ready, as_issued, invoked) =
        check_expiration_sound info _ _ e checked in
      let (invocation, requested, same, signed) =
        check_invocation_sound info expiration e _ invoked in
      let (s, alone, verified) = check_signers_sound expiration e info.signers signed in
      let (ends, signer, valid) = check_signature_sound expiration e s verified in
      subst Authorizes ends (record {
        size = size;
        info = info;
        inspected = inspected;
        credentials = credentials;
        address = address;
        ready = ready;
        expires = expires;
        as_issued = unexpected_lem input.expected_expiration_ledger expiration as_issued;
        invocation = invocation;
        requested = requested;
        same_invocation = same;
        signature = s;
        alone = alone;
        signer = signer;
        valid = valid;
      })

  validate_charge_authorization-Authorizes :
      (e : ℕ) → validate_charge_authorization sdk input ≡ returned e → Authorizes e
  unfolding validate_charge_authorization
  validate_charge_authorization-Authorizes e h =
      let (size, rest) = passed _ _ _ e h in
      let (some_bytes, few_bytes) = size_lem (sdk.raw_size input.signed_entry_xdr) size in
      of_parts (some_bytes, few_bytes) e rest

  -- Every condition met, the validation passes.
  Authorizes-validates :
      (e : ℕ) → Authorizes e → validate_charge_authorization sdk input ≡ returned e
  unfolding validate_charge_authorization check_entry check_expiration check_invocation
      check_signature
  Authorizes-validates e a = rw (
    sized (sdk.raw_size input.signed_entry_xdr) a.size,
    a.inspected,
    (eq_iff a.info.credential_type "address").1 a.credentials,
    a.address,
    eq_refl input.context.merchant_address,
    a.ready,
    a.expires,
    expected input.expected_expiration_ledger e a.as_issued,
    a.requested,
    (eq_iff a.info.invocation_xdr (sdk.invocation_xdr a.invocation)).1 a.same_invocation,
    a.alone,
    (eq_iff a.signature.public_key input.context.merchant_address).1 a.signer,
    a.valid,
  )

  -- A signed entry is accepted, with an expiry, exactly when its size is allowed and it decodes,
  -- its credentials are the merchant's address, it is ready at the ledger and expires then, as
  -- expected where an expiry is expected, its invocation is the one of the charge, and its one
  -- signer has one signature, by the merchant, that verifies.
  pub validate_charge_authorization_iff :
      (e : ℕ) → (validate_charge_authorization sdk input ≡ returned e) ↔ Authorizes e
  validate_charge_authorization_iff e =
      (validate_charge_authorization-Authorizes e, Authorizes-validates e)
