-- ===== src/Relayer/Scheduler.antt =====
-- apps/relayer/src/scheduler.ts, queue.ts, webhook-scheduler.ts and webhook-queue.ts: which rows the
-- two schedulers put on their queues. A queue is any state `Q`, and its `add` by job id an argument.
pub mod Laws
pub mod Queued
use stellar_journey.Base.{
  ℕ, ◌+◌, ◌*◌, String, Bool, true, false, ◌&&◌, ◌||◌, Option, none, some, List, [], ◌∷◌, leb,
  length, map, count_where, update_where, filter_where,
}
use stellar_journey.Store.{ChargeRequest, WebhookDelivery, World}
use stellar_journey.Api.ChargeStatus.{
  ChargeRequestStatus, scheduled, processing, simulated, retryable_failed, eq_status,
}
use stellar_journey.Api.DeliveryStatus.{pending, retry_scheduled, eq_delivery_status}

abbrev pub stale_pre_submission_ms : ℕ
stale_pre_submission_ms = 10 * 60000

-- A comparison with a column that may be null is false there.
abbrev pub reached : Option ℕ → ℕ → Bool
reached none now = false
reached (some at) now = leb at now

-- `updatedAt <= now - staleAfterMs`, as a sum, since the difference may be before the epoch.
abbrev pub is_stale : ℕ → ℕ → ChargeRequest → Bool
is_stale now stale_after row =
    (eq_status row.status processing || eq_status row.status simulated)
    && leb (row.updated_at + stale_after) now

abbrev pub recovered : ℕ → ℕ → ChargeRequest → ChargeRequest
recovered clock now row = record row {
  status = retryable_failed;
  failure_code = some "WORKER_INTERRUPTED";
  next_attempt_at = some now;
  updated_at = clock;
}

-- The count and the store after `recoverStalePreSubmissionCharges`.
unfoldable pub recover_stale_pre_submission_charges : ℕ → ℕ → World → ℕ × World
recover_stale_pre_submission_charges now stale_after w = (
  count_where (is_stale now stale_after) w.charge_requests,
  record w {
    charge_requests =
        update_where (is_stale now stale_after) (recovered w.clock now) w.charge_requests;
  },
)

abbrev pub is_due : ℕ → ChargeRequest → Bool
is_due now row =
    (eq_status row.status scheduled && leb row.scheduled_for now)
    || (eq_status row.status retryable_failed && reached row.next_attempt_at now)

abbrev pub is_due_delivery : ℕ → WebhookDelivery → Bool
is_due_delivery now row =
    eq_delivery_status row.status pending
    || (eq_delivery_status row.status retry_scheduled && reached row.next_attempt_at now)

module _ {Q : Type 0} (add : String → Q → Q) where
  -- The loop over the rows that are due.
  unfoldable pub enqueue_all : List String → Q → Q
  enqueue_all [] q = q
  enqueue_all (id ∷ ids) q = enqueue_all ids (add id q)

  unfoldable pub schedule_due_charge_requests : ℕ → World → Q → ℕ × World × Q
  schedule_due_charge_requests now w q =
      let w' = (recover_stale_pre_submission_charges now stale_pre_submission_ms w).1 in
      let due = filter_where (is_due now) w'.charge_requests in
      (length due, w', enqueue_all (map (λ row. row.id) due) q)

  unfoldable pub schedule_due_webhook_deliveries : ℕ → World → Q → ℕ × Q
  schedule_due_webhook_deliveries now w q =
      let due = filter_where (is_due_delivery now) w.deliveries in
      (length due, enqueue_all (map (λ row. row.id) due) q)
