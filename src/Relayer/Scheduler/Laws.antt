-- ===== src/Relayer/Scheduler/Laws.antt =====
-- What a tick of a scheduler recovers and enqueues.
use stellar_journey.Base.{
  ℕ, ◌+◌, ◌≤◌, ◌≡◌, ◌⊎◌, ◌↔◌, ◌∙◌, ◌&&◌, ◌||◌, inl, inr, refl, ap, String, Bool, true, false,
  Option, some, List, [], ◌∷◌, map, arith, filter_where, count_where, leb, if◌then◌else◌,
  Bool-cases, str_eq, eq_iff,
}
use stellar_journey.Store.{ChargeRequest, World, is_charge, is_delivery, find_charge}
use stellar_journey.Store.Charges.{HasUniqueIds, find-update, update-HasUniqueIds}
use stellar_journey.Api.ChargeStatus.{
  ChargeRequestStatus, scheduled, processing, simulated, submitted, retryable_failed, eq_status,
}
use stellar_journey.Api.ChargeStatus.Graph.{eq_status_iff}
use stellar_journey.Relayer.Scheduler.{
  is_stale, recovered, recover_stale_pre_submission_charges, is_due, is_due_delivery, enqueue_all,
  schedule_due_charge_requests, schedule_due_webhook_deliveries,
}

-- Where charge keys are unique, they are unique after a recovery, and a row is found there as it
-- was, or, if it was processing or simulated and last written `stale_after` ago or earlier, as
-- the same row made retryable and due at once.
pub recover_lem :
    (now stale_after : ℕ) (w : World) (id : String) (row : ChargeRequest)
    → HasUniqueIds w.charge_requests
    → find_charge id w ≡ some row
    → let w' = (recover_stale_pre_submission_charges now stale_after w).1 in
      HasUniqueIds w'.charge_requests
      × (find_charge id w'
          ≡ some (if is_stale now stale_after row then recovered w.clock now row else row))
unfolding recover_stale_pre_submission_charges
recover_lem now stale_after w id row unique found = (
  update-HasUniqueIds (is_stale now stale_after) (recovered w.clock now) (λ r. refl)
      w.charge_requests unique,
  find-update (is_stale now stale_after) (recovered w.clock now) (λ r. refl) id w.charge_requests
      row found,
)

-- Where charge keys are unique, a recovery leaves a submitted row as it was, however old it is.
pub recover_submitted :
    (now stale_after : ℕ) (w : World) (id : String) (row : ChargeRequest)
    → HasUniqueIds w.charge_requests
    → find_charge id w ≡ some row
    → row.status ≡ submitted
    → find_charge id (recover_stale_pre_submission_charges now stale_after w).1 ≡ some row
recover_submitted now stale_after w id row unique found e =
    (recover_lem now stale_after w id row unique found).1 ∙ ap kept (not_stale row.status e)
  where
    kept : Bool → Option ChargeRequest
    kept stale = some (if stale then recovered w.clock now row else row)

    not_stale :
        (s : ChargeRequestStatus)
        → s ≡ submitted
        → ((eq_status s processing || eq_status s simulated)
            && leb (row.updated_at + stale_after) now)
          ≡ false
    not_stale s h = rw h

module _ {Q : Type 0} (add : String → Q → Q) (Queued : String → Q → Type 0)
    (adds : (id other : String) (q : Q) → Queued other (add id q) ↔ ((id ≡ other) ⊎ Queued other q))
    {A : Type 0} (key : A → String) (p : A → Bool) (id : String) where
  enqueue_all_iff :
      (rows : List A) (q : Q)
      → Queued id (enqueue_all add (map key (filter_where p rows)) q)
        ↔ (Queued id q ⊎ (1 ≤ count_where (λ r. str_eq (key r) id && p r) rows))
  unfolding enqueue_all filter_where count_where
  enqueue_all_iff [] q = (inl, elim [ inl h ↦ h | inr bad ↦ ground arith ])
  enqueue_all_iff (r ∷ rs) q = elim (Bool-cases (p r)) [
    | inl due ↦
        rw due
          (ground (arith, enqueue_all_iff rs (add (key r) q), adds (key r) id q, eq_iff (key r) id))
    | inr early ↦ rw early (ground (arith, enqueue_all_iff rs q))
  ]

module _ {Q : Type 0} (add : String → Q → Q) (Queued : String → Q → Type 0)
    (adds : (id other : String) (q : Q)
      → Queued other (add id q) ↔ ((id ≡ other) ⊎ Queued other q)) where
  -- For a queue to which adding an id adds that id and no other, what is queued after a tick of
  -- the charge scheduler was queued before it or is the key of a row that is due after the
  -- recovery, and nothing else is queued.
  pub schedule_due_charge_requests_iff :
      (now : ℕ) (w : World) (q : Q) (id : String)
      → let end = schedule_due_charge_requests add now w q in
        Queued id end.2 ↔ (
          Queued id q
          ⊎ (1 ≤ count_where (λ row. is_charge id row && is_due now row) end.1.charge_requests))
  unfolding schedule_due_charge_requests
  schedule_due_charge_requests_iff now w q id =
      enqueue_all_iff add Queued adds (λ row. row.id) (is_due now) id _ q

  -- For a queue to which adding an id adds that id and no other, what is queued after a tick of
  -- the webhook scheduler was queued before it or is the key of a delivery that is due, and
  -- nothing else is queued.
  pub schedule_due_webhook_deliveries_iff :
      (now : ℕ) (w : World) (q : Q) (id : String)
      → Queued id (schedule_due_webhook_deliveries add now w q).1 ↔ (
          Queued id q
          ⊎ (1 ≤ count_where (λ row. is_delivery id row && is_due_delivery now row) w.deliveries))
  unfolding schedule_due_webhook_deliveries
  schedule_due_webhook_deliveries_iff now w q id =
      enqueue_all_iff add Queued adds (λ row. row.id) (is_due_delivery now) id _ q

-- A row that a tick finds due is one that a run may claim.
pub due-claimable :
    (now : ℕ) (row : ChargeRequest)
    → is_due now row ≡ true
    → (row.status ≡ scheduled) ⊎ (row.status ≡ retryable_failed)
due-claimable now row h =
    ground (arith, eq_status_iff row.status scheduled, eq_status_iff row.status retryable_failed)

-- A row that a tick recovers is due in the same tick.
pub recovered-due :
    (clock now : ℕ) (row : ChargeRequest) → is_due now (recovered clock now row) ≡ true
recovered-due clock now row = ground arith
