-- ===== src/Relayer/Pipeline/Fail.antt =====
-- apps/relayer/src/pipeline.ts: the closure `fail`, which every failing exit ends in.
use stellar_journey.Base.{ℕ, String, Option, none, some, [], ◌∷◌}
use stellar_journey.Base.Effect.{Result, returned, thrown, pure, throw, ◌>>◌, transaction}
use stellar_journey.Store.{ChargeRequest, unclassifiable, Job}
use stellar_journey.Api.ChargeStatus.{
  ChargeRequestStatus, retryable_failed, permanently_failed as is_permanently_failed,
}
use stellar_journey.Api.ChargeStatus.Transition.{ChargePatch, no_patch, transition}
use stellar_journey.Relayer.Classify.{
  FailureClass, permanent, transient, ClassifiedFailure, UnclassifiableContractError,
}
use stellar_journey.Relayer.Retry.{next_retry_at}
use stellar_journey.Relayer.Webhook.{EnqueueWebhookInput, enqueue_charge_webhook}
use stellar_journey.Relayer.Pipeline.Outcome.{
  PipelineDeps, PipelineOutcome, retry_scheduled, permanently_failed,
}

abbrev pub retry_patch : String → ℕ → ChargePatch
retry_patch reason at = record no_patch {
  failure_code = some reason;
  next_attempt_at = some (some at);
}

abbrev pub permanent_patch : String → ChargePatch
permanent_patch reason = record no_patch { failure_code = some reason; next_attempt_at = some none }

-- The `payment.failed` event.
abbrev pub failed_event : ChargeRequest → String → EnqueueWebhookInput
failed_event row reason = record {
  merchant_id = row.merchant_id;
  event_type = "payment.failed";
  payload =
      ("chargeRequestId", row.id)
      ∷ ("mandateId", row.mandate_id)
      ∷ ("chargeId", row.charge_id)
      ∷ ("reason", reason)
      ∷ [];
}

module _ (deps : PipelineDeps) (row : ChargeRequest) (attempt_count : ℕ) where
  -- The two ends of `fail`: with a time for another attempt, and without one.
  unfoldable pub fail_with : ChargeRequestStatus → String → Option ℕ → Job PipelineOutcome
  fail_with from reason (some at) = do
    transition row.id from retryable_failed (retry_patch reason at)
    pure (retry_scheduled at reason)
  fail_with from reason none = do
    transaction (
        transition row.id from is_permanently_failed (permanent_patch reason)
        >> enqueue_charge_webhook deps.uuid (failed_event row reason))
    pure (permanently_failed reason)

  abbrev pub retry_time : FailureClass → ℕ → Option ℕ
  retry_time transient clock = next_retry_at attempt_count clock
  retry_time permanent clock = none

  unfoldable pub fail : ChargeRequestStatus → ClassifiedFailure → Job PipelineOutcome
  fail from classified w =
      fail_with from classified.reason (retry_time classified.failure_class w.clock) w

  -- `fail(from, classifyContractErrorName(name))`: what the classification throws is thrown on.
  unfoldable pub fail_classified :
      ChargeRequestStatus
      → Result UnclassifiableContractError ClassifiedFailure
      → Job PipelineOutcome
  fail_classified from (returned classified) = fail from classified
  fail_classified from (thrown e) = throw (unclassifiable e.name)
