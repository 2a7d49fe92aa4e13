-- ===== src/Relayer/Scheduler/Queued.antt =====
-- From a completed authorization (apps/api/src/routes/charges.ts) to the relayer's queue
-- (apps/relayer/src/scheduler.ts).
use stellar_journey.Base.{
  ℕ, ◌≤◌, ◌≡◌, ◌⊎◌, ◌∙◌, sym, ap, subst, inl, inr, String, ◌&&◌, List, ◌∷◌, arith, ◌↔◌, some,
  some-eq-some, find_where, eq_refl, count_where, update_where, le→leb,
}
use stellar_journey.Base.Effect.{returned}
use stellar_journey.Store.{ChargeRequest, ChargeAuthorization, Merchant, World, is_charge}
use stellar_journey.Api.ChargeStatus.{scheduled}
use stellar_journey.Api.Routes.Charges.{
  ChargeDeps, ChargeRequestResponse, to_charge_request_response, is_authorization_of,
}
use stellar_journey.Api.Routes.Charges.Complete.{complete_charge_authorization}
use stellar_journey.Api.Routes.Charges.Completing.{
  AnsweredBefore, QueuedNow, complete_charge_authorization_lem,
}
use stellar_journey.Relayer.Scheduler.{
  stale_pre_submission_ms, is_stale, recovered, is_due, recover_stale_pre_submission_charges,
  schedule_due_charge_requests,
}
use stellar_journey.Relayer.Scheduler.Laws.{schedule_due_charge_requests_iff}

-- A new row that is due stays due after the recovery.
due_head :
    (now clock : ℕ) (row : ChargeRequest) (rows : List ChargeRequest)
    → row.status ≡ scheduled
    → row.scheduled_for ≤ now
    → 1
      ≤ count_where
          (λ r. is_charge row.id r && is_due now r)
          (update_where (is_stale now stale_pre_submission_ms) (recovered clock now) (row ∷ rows))
unfolding count_where update_where
due_head now clock row rows status time =
    ground (arith, eq_refl row.id, le→leb row.scheduled_for now time)

module _ {Q : Type 0} (add : String → Q → Q) (Queued : String → Q → Type 0)
    (adds : (id other : String) (q : Q) → Queued other (add id q) ↔ ((id ≡ other) ⊎ Queued other q))
    (deps : ChargeDeps) (merchant : Merchant) where
  tick_takes :
      (now : ℕ) (w : World) (q : Q) (row : ChargeRequest) (rows : List ChargeRequest)
      → w.charge_requests ≡ row ∷ rows
      → row.status ≡ scheduled
      → row.scheduled_for ≤ now
      → Queued row.id (schedule_due_charge_requests add now w q).2
  unfolding schedule_due_charge_requests update_where recover_stale_pre_submission_charges
  tick_takes now w q row rows there status time =
      (schedule_due_charge_requests_iff add Queued adds now w q row.id).1 (inr due)
    where
      due :
          1
          ≤ count_where
              (λ r. is_charge row.id r && is_due now r)
              (schedule_due_charge_requests add now w q).1.charge_requests
      due =
          subst
            (λ all.
              1
              ≤ count_where (λ r. is_charge row.id r && is_due now r)
                  (update_where (is_stale now stale_pre_submission_ms) (recovered w.clock now) all))
            (sym there) (due_head now w.clock row rows status time)

  -- For a queue to which adding an id adds that id, a charge whose authorization has just been
  -- completed is in the queue after the next tick of the scheduler at or after the time of the
  -- charge.
  pub completed-Queued :
      (id signed : String) (w w' : World) (response : ChargeRequestResponse)
      (authorization : ChargeAuthorization) (now : ℕ) (q : Q)
      → find_where (is_authorization_of merchant.id id) w.authorizations ≡ some authorization
      → authorization.scheduled_for ≤ now
      → complete_charge_authorization deps merchant id signed w ≡ (returned (201, response), w')
      → Queued response.id (schedule_due_charge_requests add now w' q).2
  unfolding to_charge_request_response
  completed-Queued id signed w w' response authorization now q found time h =
      of_end (complete_charge_authorization_lem deps merchant id signed w w' 201 response h)
    where
      of_end :
          (a : ChargeAuthorization) × (find_where
                (is_authorization_of merchant.id id)
                w.authorizations
              ≡ some a)
            × (AnsweredBefore deps merchant a w w' 201 response
                ⊎ QueuedNow deps merchant signed a w w' 201 response)
          → Queued response.id (schedule_due_charge_requests add now w' q).2
      of_end (a, there, inl before) = absurd (omega (arith, before.3))
      of_end (a, there, inr (absent, code, c)) =
          subst (λ key. Queued key (schedule_due_charge_requests add now w' q).2) same_id
            (tick_takes now w' q c.row w.charge_requests c.is_queued.queued
              (ap (λ r. r.status) c.is_queued.as_issued)
              (subst (λ t. t ≤ now) (sym same_time) time))
        where
          same_id : c.row.id ≡ response.id
          same_id = ap (λ r. r.id) (sym c.answered)

          same_time : c.row.scheduled_for ≡ authorization.scheduled_for
          same_time =
              ap (λ r. r.scheduled_for) c.is_queued.as_issued
              ∙ ap (λ x. x.scheduled_for) (some-eq-some (sym there ∙ found))
