-- ===== src/Relayer/Delivery/Sending.antt =====
-- The steps of apps/relayer/src/webhook-delivery.ts after a delivery is claimed, from the last write to
-- the first: how each may end.
use stellar_journey.Base.{
  ℕ, ◌≡◌, ◌≢◌, ◌⊎◌, ◌∙◌, inl, inr, refl, sym, ap, String, true, Option, none, some, ◌∷◌,
}
use stellar_journey.Base.Effect.{Result, returned, thrown}
use stellar_journey.Store.{WebhookDelivery, Post, World, Fault, find_delivery, or_keep}
use stellar_journey.Api.DeliveryStatus.{
  WebhookDeliveryStatus, delivering, delivered as is_delivered,
  retry_scheduled as is_retry_scheduled, dead_letter as is_dead_letter, is_legal_delivery,
}
use stellar_journey.Api.DeliveryStatus.Transition.{
  DeliveryPatch, no_delivery_patch, moved_delivery, move_deliveries, transition_delivery,
}
use stellar_journey.Api.DeliveryStatus.Transition.Laws.{
  eq_delivery_status_iff, HasUniqueDeliveries, transition_delivery_lem, find-move_deliveries,
  find-move_deliveries_ne, move_deliveries_unique,
}
use stellar_journey.Relayer.Retry.{next_webhook_retry_at}
use stellar_journey.Relayer.Delivery.Classify.{
  WebhookResponseClass, success, retryable, permanent, classify_webhook_delivery_outcome,
}
use stellar_journey.Relayer.Delivery.{
  WebhookDeliveryDeps, WebhookDeliveryOutcome, skipped_not_claimable, delivered, retry_scheduled,
  dead_letter, next_attempt_patch, log_post, post_of, dead_letter_with, reschedule, settle_response,
  send_to, decrypted, deliver_to, run_delivery,
}

module _ (deps : WebhookDeliveryDeps) (delivery : WebhookDelivery) (n : ℕ) (start : World) where
  -- The row of the run is `current`, with its `n`-th attempt counted, and no other row has changed
  -- since `start`.
  pub record Owns (w : World) (current : WebhookDelivery) : Type 0 where
    pub unique : HasUniqueDeliveries w.deliveries
    pub found : find_delivery delivery.id w ≡ some current
    pub count : current.attempt_count ≡ n
    pub others :
        (other : String) → other ≢ delivery.id → find_delivery other w ≡ find_delivery other start

  -- The one request that the run sent, and the class of its answer.
  abbrev pub Posted : World → WebhookResponseClass → Type 0
  Posted w class =
      (url secret : String) × (let post = post_of delivery url secret start.clock in
        (w.posts ≡ post ∷ start.posts)
        × (classify_webhook_delivery_outcome (deps.send post) ≡ class))

  -- The row is final or waits for its time, and the request was answered accordingly; a run that
  -- claimed its row never throws.
  abbrev pub DeliveryEnds : Result Fault WebhookDeliveryOutcome × World → Type 0
  DeliveryEnds (returned skipped_not_claimable, w) = ⊥
  DeliveryEnds (returned delivered, w) =
      (current : WebhookDelivery) × Owns w current
      × (current.status ≡ is_delivered)
      × Posted w success
  DeliveryEnds (returned (retry_scheduled at reason), w) =
      (current : WebhookDelivery) × Owns w current
      × (current.status ≡ is_retry_scheduled)
      × (current.next_attempt_at ≡ some at)
      × (next_webhook_retry_at n start.clock ≡ some at)
      × Posted w retryable
  DeliveryEnds (returned (dead_letter reason), w) =
      (current : WebhookDelivery) × Owns w current
      × (current.status ≡ is_dead_letter)
      × (current.next_attempt_at ≡ none)
      × ((w.posts ≡ start.posts)
          ⊎ Posted w permanent
          ⊎ (Posted w retryable × (next_webhook_retry_at n start.clock ≡ none)))
  DeliveryEnds (thrown e, w) = ⊥

  -- The run holds its row at `delivering`.
  pub record Delivering (w : World) : Type 0 where
    pub current : WebhookDelivery
    pub owns : Owns w current
    pub status : current.status ≡ delivering
    pub clock : w.clock ≡ start.clock

  module _ (to : WebhookDeliveryStatus) (patch : DeliveryPatch)
      (keeps : (k : ℕ) → or_keep patch.attempt_count k ≡ k)
      (legal : is_legal_delivery delivering to ≡ true) (w : World) (d : Delivering w) where
    leaves :
        transition_delivery delivery.id delivering to patch w
        ≡ (returned tt, move_deliveries delivery.id delivering to patch w)
    leaves =
        transition_delivery_lem delivery.id delivering to patch w d.current d.owns.unique
          d.owns.found
        ∙ rw (legal, (eq_delivery_status_iff d.current.status delivering).1 d.status)

    left :
        Owns (move_deliveries delivery.id delivering to patch w) (moved_delivery to patch d.current)
    left = record {
      unique =
          move_deliveries_unique delivery.id delivering to patch w d.current d.owns.unique
            d.owns.found;
      found =
          find-move_deliveries delivery.id delivering to patch w d.current d.owns.unique
            d.owns.found d.status;
      count = keeps d.current.attempt_count ∙ d.owns.count;
      others = λ other ne.
          find-move_deliveries_ne delivery.id delivering to patch w d.current d.owns.unique
            d.owns.found other ne
          ∙ d.owns.others other ne;
    }

  abbrev Hopeless : World → Type 0
  Hopeless w =
      (w.posts ≡ start.posts)
      ⊎ Posted w permanent
      ⊎ (Posted w retryable × (next_webhook_retry_at n start.clock ≡ none))

  dead_letter_with-Ends :
      (reason : String) (w : World)
      → Delivering w
      → Hopeless w
      → DeliveryEnds (dead_letter_with deps delivery n reason w)
  unfolding dead_letter_with
  dead_letter_with-Ends reason w d hopeless =
      rw (leaves is_dead_letter (next_attempt_patch none) (λ k. refl) refl w d) (
        moved_delivery is_dead_letter (next_attempt_patch none) d.current,
        left is_dead_letter (next_attempt_patch none) (λ k. refl) refl w d,
        refl,
        refl,
        hopeless,
      )

  reschedule-Ends :
      (reason : String) (at : Option ℕ) (w : World)
      → Delivering w
      → Posted w retryable
      → next_webhook_retry_at n start.clock ≡ at
      → DeliveryEnds (reschedule deps delivery n reason at w)
  unfolding reschedule
  reschedule-Ends reason none w d posted due = dead_letter_with-Ends _ w d (inr (inr (posted, due)))
  reschedule-Ends reason (some at) w d posted due =
      rw (leaves is_retry_scheduled (next_attempt_patch (some at)) (λ k. refl) refl w d) (
        moved_delivery is_retry_scheduled (next_attempt_patch (some at)) d.current,
        left is_retry_scheduled (next_attempt_patch (some at)) (λ k. refl) refl w d,
        refl,
        refl,
        due,
        posted,
      )

  settle_response-Ends :
      (reason : String) (class : WebhookResponseClass) (w : World)
      → Delivering w
      → Posted w class
      → DeliveryEnds (settle_response deps delivery n reason class w)
  unfolding settle_response
  settle_response-Ends reason success w d posted =
      rw (leaves is_delivered no_delivery_patch (λ k. refl) refl w d) (
        moved_delivery is_delivered no_delivery_patch d.current,
        left is_delivered no_delivery_patch (λ k. refl) refl w d,
        refl,
        posted,
      )
  settle_response-Ends reason permanent w d posted =
      dead_letter_with-Ends reason w d (inr (inl posted))
  settle_response-Ends reason retryable w d posted =
      reschedule-Ends reason _ w d posted (ap (next_webhook_retry_at n) (sym d.clock))

  log_post-Delivering : (post : Post) (w : World) → Delivering w → Delivering (log_post post w)
  log_post-Delivering post w d = record {
    current = d.current;
    owns = record {
      unique = d.owns.unique;
      found = d.owns.found;
      count = d.owns.count;
      others = d.owns.others;
    };
    status = d.status;
    clock = d.clock;
  }

  send_to-Ends :
      (url secret : String) (w : World)
      → Delivering w
      → w.posts ≡ start.posts
      → DeliveryEnds (send_to deps delivery n url secret w)
  unfolding send_to
  send_to-Ends url secret w d none_yet =
      settle_response-Ends _ _ _ (log_post-Delivering (post_of delivery url secret w.clock) w d) (
        url,
        secret,
        (
          posted,
          ap
              (λ clock.
                classify_webhook_delivery_outcome (deps.send (post_of delivery url secret clock)))
              (sym d.clock),
        ),
      )
    where
      posted :
          post_of delivery url secret w.clock ∷ w.posts
          ≡ post_of delivery url secret start.clock ∷ start.posts
      posted = rw (d.clock, none_yet)

  decrypted-Ends :
      (url : String) (secret : Option String) (w : World)
      → Delivering w
      → w.posts ≡ start.posts
      → DeliveryEnds (decrypted deps delivery n url secret w)
  unfolding decrypted
  decrypted-Ends url none w d none_yet = dead_letter_with-Ends _ w d (inl none_yet)
  decrypted-Ends url (some secret) w d none_yet = send_to-Ends url secret w d none_yet

  deliver_to-Ends :
      (endpoint : Option (String × String)) (w : World)
      → Delivering w
      → w.posts ≡ start.posts
      → DeliveryEnds (deliver_to deps delivery n endpoint w)
  unfolding deliver_to
  deliver_to-Ends none w d none_yet = dead_letter_with-Ends _ w d (inl none_yet)
  deliver_to-Ends (some (url, sealed)) w d none_yet = decrypted-Ends url _ w d none_yet

  pub run_delivery-Ends :
      (w : World)
      → Delivering w
      → w.posts ≡ start.posts
      → DeliveryEnds (run_delivery deps delivery n w)
  unfolding run_delivery
  run_delivery-Ends w d none_yet = deliver_to-Ends _ w d none_yet
