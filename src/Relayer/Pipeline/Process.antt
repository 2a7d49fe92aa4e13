-- ===== src/Relayer/Pipeline/Process.antt =====
-- apps/relayer/src/pipeline.ts: the claim, the mandate read and the context.
use stellar_journey.Base.{
  ℕ, ◌+◌, String, Bool, true, false, Option, none, some, str_eq, if◌then◌else◌,
}
use stellar_journey.Base.Effect.{pure, throw, gets, or_throw, ◌>>=◌, ◌>>◌, handle, modify}
use stellar_journey.Store.{
  ChargeRequest, read_mandate, Fault, api_error, missing_row, Job, find_charge, log_call,
}
use stellar_journey.Api.ChargeStatus.{ChargeRequestStatus, scheduled, processing, retryable_failed}
use stellar_journey.Api.ChargeStatus.Transition.{ChargePatch, no_patch, transition}
use stellar_journey.Client.Mandate.{Mandate}
use stellar_journey.Relayer.Classify.{classify_contract_error_name}
use stellar_journey.Relayer.Gateway.{
  MandateRead, mandate_found, mandate_read_error, mandate_unavailable,
}
use stellar_journey.Relayer.Context.{ChargeContext, resolve_charge_context}
use stellar_journey.Relayer.Pipeline.Outcome.{
  PipelineDeps, PipelineOutcome, skipped_not_claimable, permanent_reason, rpc_unavailable_failure,
}
use stellar_journey.Relayer.Pipeline.Fail.{fail, fail_classified}
use stellar_journey.Relayer.Pipeline.Authorize.{load_authorization}

module _ (deps : PipelineDeps) (row : ChargeRequest) (attempt_count : ℕ) where
  unfoldable pub check_merchant : Mandate → ChargeContext → Bool → Job PipelineOutcome
  check_merchant mandate context true =
      load_authorization deps row attempt_count mandate context row.authorization_id
  check_merchant mandate context false =
      fail deps row attempt_count processing (permanent_reason "SIMULATION_MISMATCH")

  unfoldable pub after_context : Mandate → Option ChargeContext → Job PipelineOutcome
  after_context mandate none =
      fail deps row attempt_count processing (permanent_reason "CHARGE_CONTEXT_NOT_FOUND")
  after_context mandate (some context) =
      check_merchant mandate context (str_eq context.merchant_wallet_address mandate.merchant)

  unfoldable pub after_mandate_read : MandateRead → Job PipelineOutcome
  after_mandate_read (mandate_read_error name) =
      fail_classified deps row attempt_count processing (classify_contract_error_name name)
  after_mandate_read mandate_unavailable =
      fail deps row attempt_count processing rpc_unavailable_failure
  after_mandate_read (mandate_found mandate) = do
    context ← gets (resolve_charge_context row.merchant_id row.mandate_id)
    after_context mandate context

  -- Everything after the claim.
  unfoldable pub run_claimed : Job PipelineOutcome
  run_claimed = do
    modify (log_call (read_mandate row.mandate_id))
    after_mandate_read (deps.gateway.get_mandate row.mandate_id)

abbrev pub claim_from : ChargeRequestStatus → ChargeRequestStatus
claim_from retryable_failed = retryable_failed
claim_from _ = scheduled

abbrev pub claim_patch : ℕ → ChargePatch
claim_patch attempts = record no_patch { attempt_count = some attempts }

abbrev pub is_invalid_transition : Fault → Bool
is_invalid_transition (api_error status code) = str_eq code "InvalidStateTransition"
is_invalid_transition _ = false

-- The `catch` of the claim.
abbrev pub lost_claim : Fault → Job PipelineOutcome
lost_claim e = if is_invalid_transition e then pure skipped_not_claimable else throw e

unfoldable pub claim : PipelineDeps → ChargeRequest → Job PipelineOutcome
claim deps row w =
    handle lost_claim (λ _. run_claimed deps row (row.attempt_count + 1))
      (transition row.id (claim_from row.status) processing (claim_patch (row.attempt_count + 1)) w)

unfoldable pub process_charge_request : PipelineDeps → String → Job PipelineOutcome
process_charge_request deps charge_request_id = do
  found ← gets (find_charge charge_request_id)
  row ← or_throw found (missing_row charge_request_id)
  claim deps row
