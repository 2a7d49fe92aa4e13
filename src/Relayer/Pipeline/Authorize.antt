-- ===== src/Relayer/Pipeline/Authorize.antt =====
-- apps/relayer/src/pipeline.ts: the merchant's signed authorization, before the simulation.
use stellar_journey.Base.{
  ℕ, String, Bool, true, false, Option, none, some, find_where, if◌then◌else◌, leb, truthy,
}
use stellar_journey.Base.Effect.{gets, ◌>>=◌, ◌>>◌, modify}
use stellar_journey.Store.{
  ChargeRequest, ChargeAuthorization, AuthorizationStatus, ready, expired, read_ledger, Job,
  is_authorization, log_call,
}
use stellar_journey.Api.ChargeStatus.{processing}
use stellar_journey.Client.Mandate.{Mandate}
use stellar_journey.Relayer.Gateway.{LedgerRead, ledger_sequence, ledger_unavailable}
use stellar_journey.Relayer.Context.{ChargeContext}
use stellar_journey.Relayer.Pipeline.Outcome.{
  PipelineDeps, PipelineOutcome, permanent_reason, rpc_unavailable_failure,
}
use stellar_journey.Relayer.Pipeline.Writes.{update_authorization}
use stellar_journey.Relayer.Pipeline.Fail.{fail}
use stellar_journey.Relayer.Pipeline.Prepare.{prepare_charge}

abbrev pub expire : ℕ → ChargeAuthorization → ChargeAuthorization
expire clock authorization = record authorization { status = expired }

abbrev pub is_ready : AuthorizationStatus → Bool
is_ready ready = true
is_ready _ = false

-- An authorization that can be used, with its ciphertext and the key: the row exists, is ready,
-- holds a ciphertext that is not null, and the key is set.
abbrev pub usable_parts :
    ChargeAuthorization
    → Option String
    → Option String
    → Option (ChargeAuthorization × String × String)
usable_parts authorization (some ciphertext) (some key) =
    if is_ready authorization.status then some (authorization, ciphertext, key) else none
usable_parts authorization _ _ = none

module _ (deps : PipelineDeps) (row : ChargeRequest) (attempt_count : ℕ) where
  -- Decryption of the signed entry.
  unfoldable pub after_decryption : Mandate → ChargeContext → Option String → Job PipelineOutcome
  after_decryption mandate context none =
      fail deps row attempt_count processing (permanent_reason "MERCHANT_AUTHORIZATION_INVALID")
  after_decryption mandate context (some entry) =
      prepare_charge deps row attempt_count mandate context (some entry)

  -- The comparison of the signature's expiry with the latest ledger.
  unfoldable pub check_expiry :
      Mandate → ChargeContext → ChargeAuthorization → Option String → Bool → Job PipelineOutcome
  check_expiry mandate context authorization entry true = do
    update_authorization authorization.id expire
    fail deps row attempt_count processing (permanent_reason "MERCHANT_AUTHORIZATION_EXPIRED")
  check_expiry mandate context authorization entry false = after_decryption mandate context entry

  unfoldable pub after_ledger_read :
      Mandate
      → ChargeContext
      → ChargeAuthorization
      → Option String
      → LedgerRead
      → Job PipelineOutcome
  after_ledger_read mandate context authorization entry ledger_unavailable =
      fail deps row attempt_count processing rpc_unavailable_failure
  after_ledger_read mandate context authorization entry (ledger_sequence latest) =
      check_expiry mandate context authorization entry
        (leb authorization.signature_expiration_ledger latest)

  -- `if (gateway.getLatestLedgerSequence)`.
  unfoldable pub read_ledger_if_offered :
      Mandate
      → ChargeContext
      → ChargeAuthorization
      → Option String
      → Option LedgerRead
      → Job PipelineOutcome
  read_ledger_if_offered mandate context authorization entry none =
      after_decryption mandate context entry
  read_ledger_if_offered mandate context authorization entry (some answer) = do
    modify (log_call read_ledger)
    after_ledger_read mandate context authorization entry answer

  abbrev pub usable : Option ChargeAuthorization → Option (ChargeAuthorization × String × String)
  usable none = none
  usable (some authorization) =
      usable_parts authorization authorization.signed_entry_ciphertext
        (truthy deps.authorization_encryption_key)

  unfoldable pub authorize :
      Mandate → ChargeContext → Option (ChargeAuthorization × String × String) → Job PipelineOutcome
  authorize mandate context none =
      fail deps row attempt_count processing (permanent_reason "MERCHANT_AUTHORIZATION_MISSING")
  authorize mandate context (some (authorization, ciphertext, key)) =
      read_ledger_if_offered mandate context authorization
        (deps.decrypt_charge_authorization ciphertext key) deps.gateway.get_latest_ledger_sequence

  -- `if (chargeRequest.authorizationId !== null)`.
  unfoldable pub load_authorization : Mandate → ChargeContext → Option String → Job PipelineOutcome
  load_authorization mandate context none =
      prepare_charge deps row attempt_count mandate context none
  load_authorization mandate context (some id) = do
    found ← gets (λ w. find_where (is_authorization id) w.authorizations)
    authorize mandate context (usable found)
