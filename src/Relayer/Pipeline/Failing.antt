-- ===== src/Relayer/Pipeline/Failing.antt =====
-- apps/relayer/src/pipeline.ts: every exit by `fail` ends as it should.
use stellar_journey.Base.{
  ℕ, ◌+◌, ◌≡◌, refl, ◌⊎◌, ◌∷◌, ap, inl, inr, true, String, Option, none, some, arith,
}
use stellar_journey.Base.Effect.{Result, returned, thrown}
use stellar_journey.Store.{ChargeRequest, World, ChainCall, log_call}
use stellar_journey.Api.ChargeStatus.{
  ChargeRequestStatus, processing, submitted, retryable_failed,
  permanently_failed as is_permanently_failed, is_legal,
}
use stellar_journey.Api.ChargeStatus.Transition.{ChargePatch, moved, move_rows, transition}
use stellar_journey.Relayer.Classify.{
  FailureClass, permanent, transient, ClassifiedFailure, UnclassifiableContractError,
}
use stellar_journey.Relayer.Retry.{next_retry_at}
use stellar_journey.Relayer.Webhook.{new_delivery, enqueue_charge_webhook}
use stellar_journey.Relayer.Pipeline.Outcome.{PipelineDeps}
use stellar_journey.Relayer.Pipeline.Fail.{
  retry_patch, permanent_patch, failed_event, fail_with, retry_time, fail, fail_classified,
}
use stellar_journey.Relayer.Pipeline.State.{transition_runs, move_rows-Holds}
use stellar_journey.Relayer.Pipeline.Ends.{
  CanFail, at_processing, at_submitted, Ends, Working, Quiet, Interrupted, Grounds,
}

legal_retry : (from : ChargeRequestStatus) → CanFail from → is_legal from retryable_failed ≡ true
legal_retry _ at_processing = refl
legal_retry _ at_submitted = refl

legal_failure :
    (from : ChargeRequestStatus) → CanFail from → is_legal from is_permanently_failed ≡ true
legal_failure _ at_processing = refl
legal_failure _ at_submitted = refl

module _ (deps : PipelineDeps) (row : ChargeRequest) (n : ℕ) (base : World) where
  -- A legal transition takes a run that has settled nothing to the next state.
  pub move_rows-Working :
      (from to : ChargeRequestStatus) (patch : ChargePatch) (w : World)
      → Working deps row n base from w
      → is_legal from to ≡ true
      → Working deps row n base to (move_rows row.id from to patch w)
  move_rows-Working from to patch w k legal = record {
    current = moved w.clock to patch k.current;
    holds =
        move_rows-Holds row.id base.charge_requests w k.current k.holds from to patch k.status
          legal;
    status = refl;
    quiet = record {
      payments = k.quiet.payments;
      deliveries = k.quiet.deliveries;
      clock = k.quiet.clock;
      grounds = k.quiet.grounds;
    };
  }

  pub runs :
      (from to : ChargeRequestStatus) (patch : ChargePatch) (w : World)
      → Working deps row n base from w
      → is_legal from to ≡ true
      → transition row.id from to patch w ≡ (returned tt, move_rows row.id from to patch w)
  runs from to patch w k legal =
      transition_runs row.id base.charge_requests w k.current k.holds from to patch k.status legal

  -- A call that is logged changes nothing but the grounds.
  pub log_call-Working :
      (s : ChargeRequestStatus) (call : ChainCall) (w : World)
      → Working deps row n base s w
      → Grounds deps row n base (log_call call w)
      → Working deps row n base s (log_call call w)
  log_call-Working s call w k grounds = record {
    current = k.current;
    holds = k.holds;
    status = k.status;
    quiet = record {
      payments = k.quiet.payments;
      deliveries = k.quiet.deliveries;
      clock = k.quiet.clock;
      grounds = grounds;
    };
  }

  fail_with-Ends :
      (from : ChargeRequestStatus) (reason : String) (at : Option ℕ) (w : World)
      → CanFail from
      → Working deps row n base from w
      → ((time : ℕ) → at ≡ some time → next_retry_at n base.clock ≡ some time)
      → Ends deps row n base (fail_with deps row n from reason at w)
  unfolding fail_with enqueue_charge_webhook
  fail_with-Ends from reason (some at) w c k due =
      rw
        (transition_runs row.id base.charge_requests w k.current k.holds from retryable_failed
          (retry_patch reason at) k.status (legal_retry from c))
        (record {
          current = moved w.clock retryable_failed (retry_patch reason at) k.current;
          holds =
              move_rows-Holds row.id base.charge_requests w k.current k.holds from retryable_failed
                (retry_patch reason at) k.status (legal_retry from c);
          status = refl;
          why = refl;
          when = refl;
          due = due at refl;
          payments = k.quiet.payments;
          deliveries = k.quiet.deliveries;
          grounds = k.quiet.grounds;
        })
  fail_with-Ends from reason none w c k due =
      rw
        (transition_runs row.id base.charge_requests w k.current k.holds from is_permanently_failed
          (permanent_patch reason) k.status (legal_failure from c))
        (record {
          current = moved w.clock is_permanently_failed (permanent_patch reason) k.current;
          holds =
              move_rows-Holds row.id base.charge_requests w k.current k.holds from
                is_permanently_failed (permanent_patch reason) k.status (legal_failure from c);
          status = refl;
          why = refl;
          when = refl;
          payments = k.quiet.payments;
          announced =
              new_delivery w.clock (deps.uuid w.uuids) (deps.uuid (w.uuids + 1))
                (failed_event row reason);
          deliveries =
              ap
                (λ rows.
                  new_delivery w.clock (deps.uuid w.uuids) (deps.uuid (w.uuids + 1))
                    (failed_event row reason)
                  ∷ rows)
                k.quiet.deliveries;
          event = refl;
          addressee = refl;
          undelivered = refl;
          grounds = k.quiet.grounds;
        })

  retry_time-due :
      (class : FailureClass) (w : World) (time : ℕ)
      → Quiet deps row n base w
      → retry_time deps row n class w.clock ≡ some time
      → next_retry_at n base.clock ≡ some time
  retry_time-due transient w time q e = rw (← q.clock) e
  retry_time-due permanent w time q e = ground arith

  pub fail-Ends :
      (from : ChargeRequestStatus) (c : ClassifiedFailure) (w : World)
      → CanFail from
      → Working deps row n base from w
      → Ends deps row n base (fail deps row n from c w)
  unfolding fail
  fail-Ends from c w can k =
      fail_with-Ends from c.reason (retry_time deps row n c.failure_class w.clock) w can k
        (λ time e. retry_time-due c.failure_class w time k.quiet e)

  interrupted_status :
      (from : ChargeRequestStatus) (current : ChargeRequest)
      → CanFail from
      → current.status ≡ from
      → (current.status ≡ processing) ⊎ (current.status ≡ submitted)
  interrupted_status _ current at_processing e = inl e
  interrupted_status _ current at_submitted e = inr e

  -- A throw between two steps leaves the row where it was.
  pub Interrupted-Ends :
      (from : ChargeRequestStatus) (w : World)
      → CanFail from
      → Working deps row n base from w
      → Interrupted deps row n base w
  Interrupted-Ends from w can k = record {
    current = k.current;
    holds = k.holds;
    status = interrupted_status from k.current can k.status;
    payments = k.quiet.payments;
    deliveries = k.quiet.deliveries;
    grounds = k.quiet.grounds;
  }

  pub fail_classified-Ends :
      (from : ChargeRequestStatus) (c : Result UnclassifiableContractError ClassifiedFailure)
      (w : World)
      → CanFail from
      → Working deps row n base from w
      → Ends deps row n base (fail_classified deps row n from c w)
  unfolding fail_classified
  fail_classified-Ends from (returned c) w can k = fail-Ends from c w can k
  fail_classified-Ends from (thrown e) w can k = Interrupted-Ends from w can k
