-- ===== src/System/Working.antt =====
-- What a run of apps/relayer/src/pipeline.ts and a recovery of apps/relayer/src/scheduler.ts do to every charge.
use stellar_journey.Base.{
  ℕ, ◌+◌, ◌≡◌, ◌≢◌, ◌∙◌, ◌⊎◌, inl, inr, refl, sym, ap, subst, String, Bool, true, false, Option,
  none, some, List, arith, find_where, update_where, if◌then◌else◌,
}
use stellar_journey.Base.Effect.{Result, returned, thrown}
use stellar_journey.Store.{ChargeRequest, World, Fault, is_charge, find_charge}
use stellar_journey.Store.Charges.{HasUniqueIds, find-update, find-update_none, update-HasUniqueIds}
use stellar_journey.Api.ChargeStatus.{
  ChargeRequestStatus, scheduled, processing, simulated, submitted, succeeded as is_succeeded,
  retryable_failed, permanently_failed as is_permanently_failed,
}
use stellar_journey.Api.ChargeStatus.Graph.{eq_status_iff}
use stellar_journey.Relayer.Pipeline.Outcome.{
  PipelineDeps, PipelineOutcome, skipped_not_claimable, succeeded, retry_scheduled,
  permanently_failed,
}
use stellar_journey.Relayer.Pipeline.Process.{process_charge_request}
use stellar_journey.Relayer.Pipeline.Settle.{payment_of}
use stellar_journey.Relayer.Pipeline.State.{Holds}
use stellar_journey.Relayer.Pipeline.Ends.{Ends}
use stellar_journey.Relayer.Pipeline.Running.{
  IsClaimable, claimed, claimed-Holds, found_self, process_charge_request-Ends,
  process_charge_request_skipped,
}
use stellar_journey.Relayer.Scheduler.{is_stale, recovered, recover_stale_pre_submission_charges}
use stellar_journey.System.{
  waiting, in_progress, paid, failed, phase_of_status, phase_of, is_started, is_postponed, is_paid,
  is_given_up, Moves, stay, step, payments_due, payments_for, Advances, unpaid-Advances,
  paid-Advances,
}

pub same-Advances :
    (w w' : World)
    → HasUniqueIds w.charge_requests
    → w'.charge_requests ≡ w.charge_requests
    → w'.payments ≡ w.payments
    → Advances w w'
same-Advances w w' unique charges payments = record {
  unique = subst HasUniqueIds (sym charges) unique;
  moves = λ id. rw charges stay;
  balance = λ id. rw (charges, payments) refl;
}

-- A phase that no payment is due in.
open_phase :
    (s : ChargeRequestStatus)
    → (s ≡ scheduled) ⊎ (s ≡ retryable_failed)
    → phase_of_status s ≡ waiting
unfolding phase_of_status
open_phase s h = ground arith

busy_phase :
    (s : ChargeRequestStatus) → (s ≡ processing) ⊎ (s ≡ submitted) → phase_of_status s ≡ in_progress
unfolding phase_of_status
busy_phase s h = ground arith

module _ (deps : PipelineDeps) (w : World) (row : ChargeRequest)
    (unique : HasUniqueIds w.charge_requests) (found : find_charge row.id w ≡ some row)
    (claimable : IsClaimable row) where
  abbrev base : World
  base = claimed row w

  -- The run has left its row at `current`, from where it was claimed.
  module _ (w' : World) (current : ChargeRequest)
      (holds : Holds row.id base.charge_requests w'.charge_requests current) where
    others : (other : String) → other ≢ row.id → find_charge other w' ≡ find_charge other w
    others other ne =
        holds.others other ne ∙ (claimed-Holds deps row w unique found claimable).others other ne

    Moves-to :
        Moves waiting (phase_of_status current.status)
        → Moves (phase_of (find_charge row.id w)) (phase_of (find_charge row.id w'))
    unfolding phase_of
    Moves-to moves = rw (found, holds.found, open_phase row.status claimable) moves

    run_unpaid :
        Moves waiting (phase_of_status current.status)
        → payments_due (phase_of_status current.status) ≡ 0
        → w'.payments ≡ w.payments
        → Advances w w'
    unfolding phase_of payments_due
    run_unpaid moves due payments =
        unpaid-Advances row.id w w' holds.unique others (Moves-to moves) payments
          (rw (found, holds.found, open_phase row.status claimable) due)

  due_before : payments_due (phase_of (find_charge row.id w)) ≡ 0
  unfolding phase_of payments_due
  due_before = rw (found, open_phase row.status claimable) refl

  due_after :
      (w' : World) (current : ChargeRequest)
      → Holds row.id base.charge_requests w'.charge_requests current
      → phase_of_status current.status ≡ paid
      → payments_due (phase_of (find_charge row.id w')) ≡ 1
  unfolding phase_of payments_due
  due_after w' current holds here = rw (holds.found, here) refl

  Ends-Advances :
      (r : Result Fault PipelineOutcome × World)
      → Ends deps row (row.attempt_count + 1) base r
      → Advances w r.1
  unfolding phase_of_status payments_due
  Ends-Advances (returned skipped_not_claimable, w') e = absurd e
  Ends-Advances (returned (succeeded payment_id tx_hash), w') e =
      let here : phase_of_status e.current.status ≡ paid = rw (e.status) refl in
      paid-Advances row.id w w' e.holds.unique (others w' e.current e.holds)
        (Moves-to w' e.current e.holds (rw here (step (step stay is_started) is_paid)))
        (payment_of row e.receipt tx_hash e.ledger w'.clock) e.payments refl (due_before)
        (due_after w' e.current e.holds here)
  Ends-Advances (returned (retry_scheduled at reason), w') e =
      let here : phase_of_status e.current.status ≡ waiting = rw (e.status) refl in
      run_unpaid w' e.current e.holds (rw here (step (step stay is_started) is_postponed))
        (rw here refl) e.payments
  Ends-Advances (returned (permanently_failed reason), w') e =
      let here : phase_of_status e.current.status ≡ failed = rw (e.status) refl in
      run_unpaid w' e.current e.holds (rw here (step (step stay is_started) is_given_up))
        (rw here refl) e.payments
  Ends-Advances (thrown fault, w') e =
      let here = busy_phase e.current.status e.status in
      run_unpaid w' e.current e.holds (rw here (step stay is_started)) (rw here refl) e.payments

claimable_cases :
    (s : ChargeRequestStatus)
    → ((s ≡ scheduled) ⊎ (s ≡ retryable_failed)) ⊎ ((s ≢ scheduled) × (s ≢ retryable_failed))
claimable_cases scheduled = inl (inl refl)
claimable_cases retryable_failed = inl (inr refl)
claimable_cases processing = inr (λ e. cc e, λ e. cc e)
claimable_cases simulated = inr (λ e. cc e, λ e. cc e)
claimable_cases submitted = inr (λ e. cc e, λ e. cc e)
claimable_cases is_succeeded = inr (λ e. cc e, λ e. cc e)
claimable_cases is_permanently_failed = inr (λ e. cc e, λ e. cc e)

run_missing :
    (deps : PipelineDeps) (id : String) (w : World)
    → find_charge id w ≡ none
    → (process_charge_request deps id w).1 ≡ w
unfolding process_charge_request
run_missing deps id w none_found = rw none_found refl

-- A run of a job, whatever the gateway answers.
pub run-Advances :
    (deps : PipelineDeps) (id : String) (w : World)
    → HasUniqueIds w.charge_requests
    → Advances w (process_charge_request deps id w).1
run-Advances deps id w unique = by_row (find_charge id w) refl
  where
    by_row :
        (o : Option ChargeRequest)
        → find_charge id w ≡ o
        → Advances w (process_charge_request deps id w).1
    by_row none e = rw (run_missing deps id w e) (same-Advances w w unique refl refl)
    by_row (some row) e = elim (claimable_cases row.status) [
      | inl claimable ↦
          Ends-Advances deps w row unique (found_self id w row e) claimable
            (process_charge_request deps id w)
            (process_charge_request-Ends deps id w row unique e claimable)
      | inr (not_scheduled, not_failed) ↦
          subst (λ r. Advances w r.1)
            (sym (process_charge_request_skipped deps id w row unique e not_scheduled not_failed))
            (same-Advances w w unique refl refl)
    ]

stale_phase :
    (now stale_after : ℕ) (row : ChargeRequest)
    → is_stale now stale_after row ≡ true
    → phase_of_status row.status ≡ in_progress
unfolding phase_of_status
stale_phase now stale_after row h =
    ground (arith, eq_status_iff row.status processing, eq_status_iff row.status simulated)

module _ (now stale_after clock : ℕ) (id : String) (rows : List ChargeRequest) where
  abbrev rows_after : List ChargeRequest
  rows_after = update_where (is_stale now stale_after) (recovered clock now) rows

  stale-Moves :
      (row : ChargeRequest) (stale : Bool)
      → is_stale now stale_after row ≡ stale
      → let row' = if stale then recovered clock now row else row in
        Moves (phase_of_status row.status) (phase_of_status row'.status)
        × (payments_due (phase_of_status row.status) ≡ payments_due (phase_of_status row'.status))
  unfolding phase_of_status payments_due
  stale-Moves row true h = rw (stale_phase now stale_after row h) (step stay is_postponed, refl)
  stale-Moves row false h = (stay, refl)

  recover-Moves :
      (o : Option ChargeRequest)
      → find_where (is_charge id) rows ≡ o
      → Moves (phase_of o) (phase_of (find_where (is_charge id) rows_after))
        × (payments_due (phase_of o)
            ≡ payments_due (phase_of (find_where (is_charge id) rows_after)))
  unfolding phase_of
  recover-Moves none e =
      rw (find-update_none (is_stale now stale_after) (recovered clock now) (λ r. refl) id rows e)
        (stay, refl)
  recover-Moves (some row) e =
      rw (find-update (is_stale now stale_after) (recovered clock now) (λ r. refl) id rows row e)
        (stale-Moves row (is_stale now stale_after row) refl)

-- A recovery.
pub recover-Advances :
    (now stale_after : ℕ) (w : World)
    → HasUniqueIds w.charge_requests
    → Advances w (recover_stale_pre_submission_charges now stale_after w).1
unfolding recover_stale_pre_submission_charges
recover-Advances now stale_after w unique = record {
  unique =
      update-HasUniqueIds (is_stale now stale_after) (recovered w.clock now) (λ r. refl)
        w.charge_requests unique;
  moves =
      λ id. (recover-Moves now stale_after w.clock id w.charge_requests (find_charge id w) refl).0;
  balance = λ id.
      ap (λ n. payments_for id w + n)
        (recover-Moves now stale_after w.clock id w.charge_requests (find_charge id w) refl).1;
}
