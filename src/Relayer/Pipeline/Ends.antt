-- ===== src/Relayer/Pipeline/Ends.antt =====
-- How a run of apps/relayer/src/pipeline.ts may end, for a run that claimed its row: `base` is the
-- store right after the claim.
use stellar_journey.Base.{ℕ, ◌+◌, ◌≡◌, ◌⊎◌, String, Option, none, some, ◌∷◌}
use stellar_journey.Base.Effect.{Result, returned, thrown}
use stellar_journey.Store.{ChargeRequest, WebhookDelivery, World, Fault}
use stellar_journey.Api.DeliveryStatus.{pending}
use stellar_journey.Api.ChargeStatus.{
  ChargeRequestStatus, processing, submitted, succeeded as is_succeeded, retryable_failed,
  permanently_failed as is_permanently_failed,
}
use stellar_journey.Client.Mandate.{PaymentReceipt}
use stellar_journey.Relayer.Retry.{next_retry_at}
use stellar_journey.Relayer.Gateway.{ChargeSubmitResult, success}
use stellar_journey.Relayer.Pipeline.Outcome.{
  PipelineDeps, PipelineOutcome, skipped_not_claimable, succeeded, retry_scheduled,
  permanently_failed,
}
use stellar_journey.Relayer.Pipeline.Settle.{payment_of}
use stellar_journey.Relayer.Pipeline.State.{submits, Checked, Holds}

-- The states that `fail` leaves.
pub data CanFail : ChargeRequestStatus → Type 0 where
  at_processing : CanFail processing
  at_submitted : CanFail submitted

module _ (deps : PipelineDeps) (row : ChargeRequest) (n : ℕ) (base : World) where
  -- Nothing was submitted, or one envelope was, on checked grounds.
  abbrev pub Grounds : World → Type 0
  Grounds w =
      (submits w.calls ≡ submits base.calls)
      ⊎ ((submits w.calls ≡ submits base.calls + 1)
          × ((result : Option ChargeSubmitResult) × Checked deps row n base result))

  -- What a step that settles nothing keeps.
  pub record Quiet (w : World) : Type 0 where
    pub payments : w.payments ≡ base.payments
    pub deliveries : w.deliveries ≡ base.deliveries
    pub clock : w.clock ≡ base.clock
    pub grounds : Grounds w

  -- The row waits for another attempt; no payment and no announcement was written.
  pub record Retrying (w : World) (at : ℕ) (reason : String) : Type 0 where
    pub current : ChargeRequest
    pub holds : Holds row.id base.charge_requests w.charge_requests current
    pub status : current.status ≡ retryable_failed
    pub why : current.failure_code ≡ some reason
    pub when : current.next_attempt_at ≡ some at
    pub due : next_retry_at n base.clock ≡ some at
    pub payments : w.payments ≡ base.payments
    pub deliveries : w.deliveries ≡ base.deliveries
    pub grounds : Grounds w

  -- The row has failed for good, and the merchant is told; no payment was written.
  pub record Failed (w : World) (reason : String) : Type 0 where
    pub current : ChargeRequest
    pub holds : Holds row.id base.charge_requests w.charge_requests current
    pub status : current.status ≡ is_permanently_failed
    pub why : current.failure_code ≡ some reason
    pub when : current.next_attempt_at ≡ none
    pub payments : w.payments ≡ base.payments
    pub announced : WebhookDelivery
    pub deliveries : w.deliveries ≡ announced ∷ base.deliveries
    pub event : announced.event_type ≡ "payment.failed"
    pub addressee : announced.merchant_id ≡ row.merchant_id
    pub undelivered : announced.status ≡ pending
    pub grounds : Grounds w

  -- The run threw: the row is where it was before the submission or right after it.
  pub record Interrupted (w : World) : Type 0 where
    pub current : ChargeRequest
    pub holds : Holds row.id base.charge_requests w.charge_requests current
    pub status : (current.status ≡ processing) ⊎ (current.status ≡ submitted)
    pub payments : w.payments ≡ base.payments
    pub deliveries : w.deliveries ≡ base.deliveries
    pub grounds : Grounds w

  -- The row has succeeded: one envelope was submitted on checked grounds, its result was a success,
  -- and the one new payment is that of the confirmed receipt.
  pub record Charged (w : World) (payment_id tx_hash : String) : Type 0 where
    pub current : ChargeRequest
    pub holds : Holds row.id base.charge_requests w.charge_requests current
    pub status : current.status ≡ is_succeeded
    pub hash : current.transaction_hash ≡ some tx_hash
    pub receipt : PaymentReceipt
    pub ledger : ℕ
    pub payment : payment_id ≡ receipt.payment_id
    pub payments : w.payments ≡ payment_of row receipt tx_hash ledger w.clock ∷ base.payments
    pub announced : WebhookDelivery
    pub event : announced.event_type ≡ "payment.succeeded"
    pub addressee : announced.merchant_id ≡ row.merchant_id
    pub deliveries :
        (w.deliveries ≡ announced ∷ base.deliveries)
        ⊎ ((completion : WebhookDelivery) × (w.deliveries
              ≡ completion ∷ announced ∷ base.deliveries)
            × (completion.event_type ≡ "mandate.completed"))
    pub once : submits w.calls ≡ submits base.calls + 1
    pub checked : Checked deps row n base (some (success receipt tx_hash ledger))

  abbrev pub Ends : Result Fault PipelineOutcome × World → Type 0
  Ends (returned skipped_not_claimable, w) = ⊥
  Ends (returned (succeeded payment_id tx_hash), w) = Charged w payment_id tx_hash
  Ends (returned (retry_scheduled at reason), w) = Retrying w at reason
  Ends (returned (permanently_failed reason), w) = Failed w reason
  Ends (thrown e, w) = Interrupted w

  -- The row of the run stands at `s`, and nothing has been settled.
  pub record Working (s : ChargeRequestStatus) (w : World) : Type 0 where
    pub current : ChargeRequest
    pub holds : Holds row.id base.charge_requests w.charge_requests current
    pub status : current.status ≡ s
    pub quiet : Quiet w
