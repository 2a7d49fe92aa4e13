-- ===== src/Relayer/Pipeline/Settling.antt =====
-- apps/relayer/src/pipeline.ts, steps 6 to 10: what a submission and its result lead to.
use stellar_journey.Base.{
  ℕ, ◌+◌, ◌≡◌, ◌⊎◌, refl, ap, inl, inr, String, Bool, true, false, Option, none, some, List, ◌∷◌,
  arith, truthy, ◌∙◌, count_where_of_found, count_where, update_where, ◌==◌, Bool-cases,
}
use stellar_journey.Base.Effect.{returned, thrown, and_then, pure, settle}
use stellar_journey.Store.{
  ChargeRequest, ChargeAuthorization, Payment, WebhookDelivery, ChargeArgs, World, Fault,
  database_error, submit, is_authorization, is_charge, log_call,
}
use stellar_journey.Store.Charges.{update-HasUniqueIds, find-update, find-update_ne}
use stellar_journey.Api.ChargeStatus.{processing, simulated, submitted, succeeded as is_succeeded}
use stellar_journey.Api.ChargeStatus.Transition.{no_patch, moved, move_rows}
use stellar_journey.Client.Mandate.{Mandate, PaymentReceipt}
use stellar_journey.Relayer.Classify.{classify_contract_error_name}
use stellar_journey.Relayer.Gateway.{ChargeSubmitResult, success, contract_error, infra_error}
use stellar_journey.Relayer.Webhook.{new_delivery, add_delivery, enqueue_charge_webhook}
use stellar_journey.Relayer.Pipeline.Outcome.{PipelineDeps, succeeded}
use stellar_journey.Relayer.Pipeline.Writes.{
  clashes, create_payment, update_authorization, update_transaction_hash, with_hash,
}
use stellar_journey.Relayer.Pipeline.Settle.{
  payment_of, completes, success_event, completion_event, success_patch, consume_authorization,
  announce_completion, announce_success, record_success, keep_hash, settle_submission,
  submit_charge,
}
use stellar_journey.Relayer.Pipeline.State.{
  submits, Checked, transition_runs, move_rows-Holds, found_key, is_charge-other,
}
use stellar_journey.Relayer.Pipeline.Ends.{at_submitted, Ends, Working, Charged}
use stellar_journey.Relayer.Pipeline.Failing.{
  fail-Ends, fail_classified-Ends, Interrupted-Ends, move_rows-Working, runs, log_call-Working,
}

create_payment-cases :
    (payment : ℕ → Payment) (w : World)
    → (create_payment payment w
        ≡ (returned tt, record w { payments = payment w.clock ∷ w.payments }))
      ⊎ ((e : Fault) × (create_payment payment w ≡ (thrown e, w)))
unfolding create_payment
create_payment-cases payment w =
    elim (Bool-cases (count_where (clashes (payment w.clock)) w.payments == 0)) [
      | inl free ↦ inl (rw free)
      | inr taken ↦ inr (database_error "P2002", rw taken)
    ]

pub update_authorization-cases :
    (id : String) (change : ℕ → ChargeAuthorization → ChargeAuthorization) (w : World)
    → ((rows : List ChargeAuthorization) × (update_authorization id change w
          ≡ (returned tt, record w { authorizations = rows })))
      ⊎ ((e : Fault) × (update_authorization id change w ≡ (thrown e, w)))
unfolding update_authorization
update_authorization-cases id change w =
    elim (Bool-cases (count_where (is_authorization id) w.authorizations == 0)) [
      | inl missing ↦ inr (database_error "P2025", rw missing)
      | inr found ↦
          inl (update_where (is_authorization id) (change w.clock) w.authorizations, rw found)
    ]

abbrev paid_world : ChargeRequest → PaymentReceipt → String → ℕ → World → World
paid_world row receipt tx_hash ledger w = record w {
  payments = payment_of row receipt tx_hash ledger w.clock ∷ w.payments;
}

-- The store once the row has succeeded and the authorizations are `rows`.
abbrev succeeded_world :
    ChargeRequest → PaymentReceipt → String → ℕ → List ChargeAuthorization → World → World
succeeded_world row receipt tx_hash ledger rows w =
    record (move_rows row.id submitted is_succeeded (success_patch tx_hash)
      (paid_world row receipt tx_hash ledger w)) { authorizations = rows }

module _ (deps : PipelineDeps) (row : ChargeRequest) (n : ℕ) (base : World) where
  consume-cases :
      (id : Option String) (w : World)
      → ((rows : List ChargeAuthorization) × (consume_authorization deps row n id w
            ≡ (returned tt, record w { authorizations = rows })))
        ⊎ ((e : Fault) × (consume_authorization deps row n id w ≡ (thrown e, w)))
  unfolding consume_authorization
  consume-cases none w = inl (w.authorizations, refl)
  consume-cases (some id) w = update_authorization-cases id _ w

  module _ (receipt : PaymentReceipt) (tx_hash : String) (ledger : ℕ) (w : World)
      (k : Working deps row n base submitted w) (once : submits w.calls ≡ submits base.calls + 1)
      (checked : Checked deps row n base (some (success receipt tx_hash ledger))) where
    abbrev announcement : WebhookDelivery
    announcement =
        new_delivery w.clock (deps.uuid w.uuids) (deps.uuid (w.uuids + 1))
          (success_event row receipt tx_hash)

    charged :
        (rows : List ChargeAuthorization) (announced : List WebhookDelivery) (uuids : ℕ)
        → ((announced ≡ announcement ∷ base.deliveries)
            ⊎ ((completion : WebhookDelivery) × (announced
                  ≡ completion ∷ announcement ∷ base.deliveries)
                × (completion.event_type ≡ "mandate.completed")))
        → Charged deps row n base
            (record (succeeded_world row receipt tx_hash ledger rows w) {
              deliveries = announced;
              uuids = uuids;
            })
            receipt.payment_id
            tx_hash
    charged rows announced uuids told = record {
      current = moved w.clock is_succeeded (success_patch tx_hash) k.current;
      holds =
          move_rows-Holds row.id base.charge_requests (paid_world row receipt tx_hash ledger w)
            k.current k.holds submitted is_succeeded (success_patch tx_hash) k.status refl;
      status = refl;
      hash = refl;
      receipt = receipt;
      ledger = ledger;
      payment = refl;
      payments = ap (λ old. payment_of row receipt tx_hash ledger w.clock ∷ old) k.quiet.payments;
      announced = announcement;
      event = refl;
      addressee = refl;
      deliveries = told;
      once = once;
      checked = checked;
    }

    -- The ends without and with the completion of the mandate.
    finish-Ends :
        (rows : List ChargeAuthorization) (complete : Bool)
        → Ends deps row n base (
            and_then
              (λ _. pure (succeeded receipt.payment_id tx_hash))
              (settle w (
                announce_completion deps row n complete
                  (add_delivery announcement (succeeded_world row receipt tx_hash ledger rows w)))))
    unfolding announce_completion enqueue_charge_webhook
    finish-Ends rows false =
        charged rows (announcement ∷ w.deliveries) (w.uuids + 2)
          (inl (ap (λ old. announcement ∷ old) k.quiet.deliveries))
    finish-Ends rows true =
        let completion : WebhookDelivery =
          new_delivery w.clock (deps.uuid (w.uuids + 2)) (deps.uuid (w.uuids + 2 + 1))
            (completion_event row) in
        charged rows (completion ∷ announcement ∷ w.deliveries) (w.uuids + 2 + 2)
          (inr (completion, ap (λ old. completion ∷ announcement ∷ old) k.quiet.deliveries, refl))

  record_success-Ends :
      (mandate : Mandate) (receipt : PaymentReceipt) (tx_hash : String) (ledger : ℕ) (w : World)
      → Working deps row n base submitted w
      → submits w.calls ≡ submits base.calls + 1
      → Checked deps row n base (some (success receipt tx_hash ledger))
      → Ends deps row n base (record_success deps row n mandate receipt tx_hash ledger w)
  unfolding record_success announce_success enqueue_charge_webhook
  record_success-Ends mandate receipt tx_hash ledger w k once checked =
      elim (create_payment-cases (payment_of row receipt tx_hash ledger) w) [
        | inr (e, clash) ↦ rw clash (Interrupted-Ends deps row n base submitted w at_submitted k)
        | inl paid ↦
            elim (consume-cases (truthy row.authorization_id) (
              move_rows row.id submitted is_succeeded (success_patch tx_hash)
                (paid_world row receipt tx_hash ledger w))) [
                  | inr (e, missing) ↦
                      rw
                        (
                          paid,
                          transition_runs row.id base.charge_requests
                              (paid_world row receipt tx_hash ledger w) k.current k.holds submitted
                              is_succeeded (success_patch tx_hash) k.status refl,
                          missing,
                        )
                        (Interrupted-Ends deps row n base submitted w at_submitted k)
                  | inl (rows, gone) ↦
                      rw
                        (
                          paid,
                          transition_runs row.id base.charge_requests
                              (paid_world row receipt tx_hash ledger w) k.current k.holds submitted
                              is_succeeded (success_patch tx_hash) k.status refl,
                          gone,
                        )
                        (finish-Ends receipt tx_hash ledger w k once checked rows
                          (completes mandate))
                ]
      ]

  with_hash-Working :
      (hash : String) (w : World)
      → Working deps row n base submitted w
      → Working deps row n base submitted (record w {
        charge_requests =
            update_where (is_charge row.id) (with_hash hash w.clock) w.charge_requests;
      })
  with_hash-Working hash w k = record {
    current = with_hash hash w.clock k.current;
    holds = record {
      unique =
          update-HasUniqueIds (is_charge row.id) (with_hash hash w.clock) (λ r. refl)
            w.charge_requests k.holds.unique;
      found =
          find-update (is_charge row.id) (with_hash hash w.clock) (λ r. refl) row.id
            w.charge_requests k.current k.holds.found
          ∙ rw (found_key row.id base.charge_requests w.charge_requests k.current k.holds);
      others = λ other ne.
          find-update_ne (is_charge row.id) (with_hash hash w.clock) (λ r. refl) other
            w.charge_requests (is_charge-other row.id other ne)
          ∙ k.holds.others other ne;
    };
    status = k.status;
    quiet = record {
      payments = k.quiet.payments;
      deliveries = k.quiet.deliveries;
      clock = k.quiet.clock;
      grounds = k.quiet.grounds;
    };
  }

  -- The row of the run is there, so that its hash can be written.
  keep_hash-Working :
      (hash : Option String) (w : World)
      → Working deps row n base submitted w
      → (w' : World) × (keep_hash deps row n hash w ≡ (returned tt, w'))
        × Working deps row n base submitted w'
  unfolding keep_hash update_transaction_hash
  keep_hash-Working none w k = (w, refl, k)
  keep_hash-Working (some hash) w k = (
    record w {
      charge_requests = update_where (is_charge row.id) (with_hash hash w.clock) w.charge_requests;
    },
    ground
        (arith, count_where_of_found (is_charge row.id) w.charge_requests k.current k.holds.found),
    with_hash-Working hash w k,
  )

  settle_submission-Ends :
      (mandate : Mandate) (result : Option ChargeSubmitResult) (w : World)
      → Working deps row n base submitted w
      → submits w.calls ≡ submits base.calls + 1
      → Checked deps row n base result
      → Ends deps row n base (settle_submission deps row n mandate result w)
  unfolding settle_submission
  settle_submission-Ends mandate none w k once checked =
      Interrupted-Ends deps row n base submitted w at_submitted k
  settle_submission-Ends mandate (some (success receipt tx_hash ledger)) w k once checked =
      record_success-Ends mandate receipt tx_hash ledger w k once checked
  settle_submission-Ends mandate (some (contract_error info tx_hash)) w k once checked =
      let (w', kept, k') = keep_hash-Working tx_hash w k in
      rw kept (
        fail_classified-Ends deps row n base submitted (classify_contract_error_name info.name) w'
          at_submitted k')
  settle_submission-Ends mandate (some (infra_error failure)) w k once checked =
      fail-Ends deps row n base submitted failure w at_submitted k

  pub submit_charge-Ends :
      (mandate : Mandate) (args : ChargeArgs) (result : Option ChargeSubmitResult) (w : World)
      → Working deps row n base processing w
      → submits w.calls ≡ submits base.calls
      → Checked deps row n base result
      → Ends deps row n base (submit_charge deps row n mandate args result w)
  unfolding submit_charge
  submit_charge-Ends mandate args result w k none_yet checked =
      let sim : World = move_rows row.id processing simulated no_patch w in
      let sub : World = move_rows row.id simulated submitted no_patch sim in
      let k' = move_rows-Working deps row n base processing simulated no_patch w k refl in
      let k'' = move_rows-Working deps row n base simulated submitted no_patch sim k' refl in
      let sent =
        log_call-Working deps row n base submitted (submit args) sub k''
          (inr (omega arith, (result, checked))) in
      rw
        (
          runs deps row n base processing simulated no_patch w k refl,
          runs deps row n base simulated submitted no_patch sim k' refl,
        )
        (settle_submission-Ends mandate result (log_call (submit args) sub) sent (omega arith)
          checked)
