-- ===== src/Relayer/Pipeline/Settle.antt =====
-- apps/relayer/src/pipeline.ts, steps 6 to 10: the submission, and what its result leads to. The
-- functions stand from the last step of the source to its first, since each ends in a call of the next.
use stellar_journey.Base.{
  ℕ, ◌+◌, String, Bool, true, false, ◌&&◌, Option, none, some, [], ◌∷◌, ◌==◌, ltb, truthy,
}
use stellar_journey.Base.Effect.{pure, throw, ◌>>◌, modify, transaction}
use stellar_journey.Store.{
  ChargeRequest, ChargeAuthorization, consumed, Payment, ChargeArgs, submit, rejected, Job,
  log_call,
}
use stellar_journey.Api.ChargeStatus.{processing, simulated, submitted, succeeded as is_succeeded}
use stellar_journey.Api.ChargeStatus.Transition.{ChargePatch, no_patch, transition}
use stellar_journey.Client.Mandate.{Mandate, PaymentReceipt}
use stellar_journey.Relayer.Classify.{classify_contract_error_name}
use stellar_journey.Relayer.Gateway.{ChargeSubmitResult, success, contract_error, infra_error}
use stellar_journey.Relayer.Webhook.{EnqueueWebhookInput, enqueue_charge_webhook}
use stellar_journey.Relayer.Pipeline.Outcome.{PipelineDeps, PipelineOutcome, succeeded}
use stellar_journey.Relayer.Pipeline.Writes.{
  create_payment, update_authorization, update_transaction_hash,
}
use stellar_journey.Relayer.Pipeline.Fail.{fail, fail_classified}

abbrev pub payment_of : ChargeRequest → PaymentReceipt → String → ℕ → ℕ → Payment
payment_of row receipt tx_hash ledger clock = record {
  payment_id = receipt.payment_id;
  merchant_id = row.merchant_id;
  mandate_id = row.mandate_id;
  charge_id = row.charge_id;
  charge_request_id = row.id;
  amount = receipt.amount;
  asset_address = receipt.asset;
  transaction_hash = tx_hash;
  ledger = ledger;
  refunded_total = 0;
  created_at = clock;
}

abbrev pub consume : ℕ → ChargeAuthorization → ChargeAuthorization
consume clock authorization = record authorization { status = consumed; consumed_at = some clock }

-- A charge that brings the count to the mandate's maximum completes it.
abbrev pub completes : Mandate → Bool
completes mandate =
    ltb 0 mandate.max_successful_charges
    && mandate.successful_charges + 1 == mandate.max_successful_charges

-- The `mandate.completed` event.
abbrev pub completion_event : ChargeRequest → EnqueueWebhookInput
completion_event row = record {
  merchant_id = row.merchant_id;
  event_type = "mandate.completed";
  payload = ("mandateId", row.mandate_id) ∷ [];
}

-- The `payment.succeeded` event.
abbrev pub success_event : ChargeRequest → PaymentReceipt → String → EnqueueWebhookInput
success_event row receipt tx_hash = record {
  merchant_id = row.merchant_id;
  event_type = "payment.succeeded";
  payload =
      ("chargeRequestId", row.id)
      ∷ ("paymentId", receipt.payment_id)
      ∷ ("mandateId", row.mandate_id)
      ∷ ("chargeId", row.charge_id)
      ∷ ("transactionHash", tx_hash)
      ∷ [];
}

-- `data` of the transition to `succeeded`.
abbrev pub success_patch : String → ChargePatch
success_patch tx_hash = record no_patch { transaction_hash = some tx_hash }

module _ (deps : PipelineDeps) (row : ChargeRequest) (attempt_count : ℕ) where
  -- `if (chargeRequest.authorizationId)`.
  unfoldable pub consume_authorization : Option String → Job (Unit {0})
  consume_authorization none = pure tt
  consume_authorization (some id) = update_authorization id consume

  unfoldable pub announce_completion : Bool → Job (Unit {0})
  announce_completion false = pure tt
  announce_completion true = enqueue_charge_webhook deps.uuid (completion_event row)

  unfoldable pub announce_success : PaymentReceipt → String → Job (Unit {0})
  announce_success receipt tx_hash =
      enqueue_charge_webhook deps.uuid (success_event row receipt tx_hash)

  unfoldable pub record_success : Mandate → PaymentReceipt → String → ℕ → Job PipelineOutcome
  record_success mandate receipt tx_hash ledger = do
    transaction (do
      create_payment (payment_of row receipt tx_hash ledger)
      transition row.id submitted is_succeeded (success_patch tx_hash)
      consume_authorization (truthy row.authorization_id)
      announce_success receipt tx_hash
      announce_completion (completes mandate))
    pure (succeeded receipt.payment_id tx_hash)

  -- `if (result.txHash !== undefined)`.
  unfoldable pub keep_hash : Option String → Job (Unit {0})
  keep_hash none = pure tt
  keep_hash (some hash) = update_transaction_hash row.id hash

  -- What follows `prepared.submit()`.
  unfoldable pub settle_submission : Mandate → Option ChargeSubmitResult → Job PipelineOutcome
  settle_submission mandate none = throw rejected
  settle_submission mandate (some (success receipt tx_hash ledger)) =
      record_success mandate receipt tx_hash ledger
  settle_submission mandate (some (contract_error info tx_hash)) = do
    keep_hash tx_hash
    fail_classified deps row attempt_count submitted (classify_contract_error_name info.name)
  settle_submission mandate (some (infra_error failure)) =
      fail deps row attempt_count submitted failure

  unfoldable pub submit_charge :
      Mandate → ChargeArgs → Option ChargeSubmitResult → Job PipelineOutcome
  submit_charge mandate args result = do
    transition row.id processing simulated no_patch
    transition row.id simulated submitted no_patch
    modify (log_call (submit args))
    settle_submission mandate result
