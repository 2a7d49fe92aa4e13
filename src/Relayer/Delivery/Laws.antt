-- ===== src/Relayer/Delivery/Laws.antt =====
-- What one attempt to send a webhook may come to.
use stellar_journey.Base.{
  ℕ, ◌+◌, ◌≤◌, ◌<◌, ◌≡◌, ◌≢◌, ◌⊎◌, ◌∙◌, refl, sym, subst, String, true, false, some, arith,
  found_passes, eq_iff,
}
use stellar_journey.Base.Effect.{returned}
use stellar_journey.Store.{WebhookDelivery, World, is_delivery, find_delivery}
use stellar_journey.Api.DeliveryStatus.{
  WebhookDeliveryStatus, pending, delivering, delivered as is_delivered,
  retry_scheduled as is_retry_scheduled, dead_letter as is_dead_letter, is_legal_delivery,
  eq_delivery_status,
}
use stellar_journey.Api.DeliveryStatus.Transition.{
  DeliveryPatch, moved_delivery, move_deliveries, transition_delivery,
}
use stellar_journey.Api.DeliveryStatus.Transition.Laws.{
  eq_delivery_status_iff, HasUniqueDeliveries, transition_delivery_lem, find-move_deliveries,
  move_deliveries_unique,
}
use stellar_journey.Relayer.Delivery.Classify.{
  success, HttpOutcome, http, classify_webhook_delivery_outcome,
}
use stellar_journey.Relayer.Delivery.{
  WebhookDeliveryDeps, skipped_not_claimable, claim_delivery_from, attempt_patch, claim_delivery,
  process_webhook_delivery,
}
use stellar_journey.Relayer.Delivery.Sending.{DeliveryEnds, Delivering, run_delivery-Ends}

-- An answer that is classified as a success is an HTTP answer with a status from 200 to 299.
pub classify-success_lem :
    (outcome : HttpOutcome)
    → classify_webhook_delivery_outcome outcome ≡ success
    → (status : ℕ) × (outcome ≡ http status) × (200 ≤ status) × (status < 300)
unfolding classify_webhook_delivery_outcome
classify-success_lem (http status) e = (status, refl, ground arith, ground arith)
classify-success_lem HttpOutcome.timeout e = cc
classify-success_lem (HttpOutcome.network_error message) e = cc
classify-success_lem (HttpOutcome.redirect status location) e = cc
classify-success_lem (HttpOutcome.ssrf_blocked message) e = cc

abbrev pub IsDeliverable : WebhookDelivery → Type 0
IsDeliverable delivery = (delivery.status ≡ pending) ⊎ (delivery.status ≡ is_retry_scheduled)

-- The store right after the claim.
abbrev pub claimed_delivery : WebhookDelivery → World → World
claimed_delivery delivery w =
    move_deliveries delivery.id (claim_delivery_from delivery.status) delivering
      (attempt_patch (delivery.attempt_count + 1)) w

claim_from-deliverable :
    (s : WebhookDeliveryStatus)
    → (s ≡ pending) ⊎ (s ≡ is_retry_scheduled)
    → (s ≡ claim_delivery_from s) × (is_legal_delivery (claim_delivery_from s) delivering ≡ true)
claim_from-deliverable pending h = (refl, refl)
claim_from-deliverable is_retry_scheduled h = (refl, refl)
claim_from-deliverable delivering h = ground arith
claim_from-deliverable is_delivered h = ground arith
claim_from-deliverable is_dead_letter h = ground arith

found-id :
    (id : String) (w : World) (row : WebhookDelivery) → find_delivery id w ≡ some row → row.id ≡ id
found-id id w row found =
    (eq_iff row.id id).0 (found_passes (is_delivery id) w.deliveries row found)

module _ (deps : WebhookDeliveryDeps) (delivery : WebhookDelivery) (w : World)
    (unique : HasUniqueDeliveries w.deliveries)
    (found : find_delivery delivery.id w ≡ some delivery) where
  abbrev from : WebhookDeliveryStatus
  from = claim_delivery_from delivery.status

  abbrev patch : DeliveryPatch
  patch = attempt_patch (delivery.attempt_count + 1)

  claim_delivery-Ends :
      IsDeliverable delivery
      → DeliveryEnds deps delivery
          (delivery.attempt_count + 1)
          (claimed_delivery delivery w)
          (claim_delivery deps delivery w)
  unfolding claim_delivery
  claim_delivery-Ends deliverable = rw claims (
      run_delivery-Ends deps delivery (delivery.attempt_count + 1) (claimed_delivery delivery w)
        (claimed_delivery delivery w) holds refl)
    where
      at : delivery.status ≡ claim_delivery_from delivery.status
      at = (claim_from-deliverable delivery.status deliverable).0

      claims :
          transition_delivery delivery.id from delivering patch w
          ≡ (returned tt, claimed_delivery delivery w)
      claims =
          transition_delivery_lem delivery.id from delivering patch w delivery unique found
          ∙ rw (
            (claim_from-deliverable delivery.status deliverable).1,
            (eq_delivery_status_iff delivery.status from).1 at,
          )

      holds :
          Delivering deps delivery
            (delivery.attempt_count + 1)
            (claimed_delivery delivery w)
            (claimed_delivery delivery w)
      holds = record {
        current = moved_delivery delivering patch delivery;
        owns = record {
          unique = move_deliveries_unique delivery.id from delivering patch w delivery unique found;
          found = find-move_deliveries delivery.id from delivering patch w delivery unique found at;
          count = refl;
          others = λ other ne. refl;
        };
        status = refl;
        clock = refl;
      }

claim_from-undeliverable :
    (s : WebhookDeliveryStatus)
    → s ≢ pending
    → s ≢ is_retry_scheduled
    → eq_delivery_status s (claim_delivery_from s) ≡ false
claim_from-undeliverable pending a b = absurd (a refl)
claim_from-undeliverable is_retry_scheduled a b = absurd (b refl)
claim_from-undeliverable delivering a b = refl
claim_from-undeliverable is_delivered a b = refl
claim_from-undeliverable is_dead_letter a b = refl

claim_from-legal :
    (s : WebhookDeliveryStatus) → is_legal_delivery (claim_delivery_from s) delivering ≡ true
claim_from-legal is_retry_scheduled = refl
claim_from-legal pending = refl
claim_from-legal delivering = refl
claim_from-legal is_delivered = refl
claim_from-legal is_dead_letter = refl

module _ (deps : WebhookDeliveryDeps) (delivery : WebhookDelivery) (w : World)
    (unique : HasUniqueDeliveries w.deliveries) (current : WebhookDelivery)
    (found : find_delivery delivery.id w ≡ some current)
    (moved_on : eq_delivery_status current.status (claim_delivery_from delivery.status)
      ≡ false) where
  -- Where delivery keys are unique, a worker whose delivery no longer stands where the worker
  -- read it loses the claim: it sends no request, writes nothing and reports that it was skipped.
  pub claim_delivery_stale : claim_delivery deps delivery w ≡ (returned skipped_not_claimable, w)
  unfolding claim_delivery
  claim_delivery_stale = rw (
    transition_delivery_lem delivery.id (claim_delivery_from delivery.status) delivering
        (attempt_patch (delivery.attempt_count + 1)) w current unique found,
    claim_from-legal delivery.status,
    moved_on,
  )

module _ (deps : WebhookDeliveryDeps) (id : String) (w : World) (delivery : WebhookDelivery)
    (unique : HasUniqueDeliveries w.deliveries) (found : find_delivery id w ≡ some delivery) where
  found_self : find_delivery delivery.id w ≡ some delivery
  found_self =
      subst (λ key. find_delivery key w ≡ some delivery) (sym (found-id id w delivery found)) found

  -- Where delivery keys are unique and the row of the job is pending or waits for a retry, an
  -- attempt never throws and leaves the row, with its attempt counted, in one of three states:
  -- delivered after one request answered with success; waiting for the time of the schedule after
  -- one request with a retryable answer; or dead, after no request, a permanent answer, or a
  -- retryable answer with the schedule exhausted. Other rows are untouched.
  pub process_webhook_delivery-Ends :
      IsDeliverable delivery
      → DeliveryEnds deps delivery
          (delivery.attempt_count + 1)
          (claimed_delivery delivery w)
          (process_webhook_delivery deps id w)
  unfolding process_webhook_delivery
  process_webhook_delivery-Ends deliverable =
      rw found (claim_delivery-Ends deps delivery w unique found_self deliverable)

  -- Where delivery keys are unique, a job for a delivery that is neither pending nor waiting for
  -- a retry sends nothing, writes nothing and reports that it was skipped.
  pub process_webhook_delivery_skipped :
      delivery.status ≢ pending
      → delivery.status ≢ is_retry_scheduled
      → process_webhook_delivery deps id w ≡ (returned skipped_not_claimable, w)
  unfolding process_webhook_delivery
  process_webhook_delivery_skipped not_pending not_waiting = rw found (
      claim_delivery_stale deps delivery w unique delivery found_self
        (claim_from-undeliverable delivery.status not_pending not_waiting))
