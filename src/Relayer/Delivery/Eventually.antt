-- ===== src/Relayer/Delivery/Eventually.antt =====
-- The attempts at one webhook (apps/relayer/src/webhook-delivery.ts) come to an end.
use stellar_journey.Base.{
  ℕ, suc, ◌+◌, ◌≤◌, ◌<◌, ◌≡◌, ◌⊎◌, ◌∙◌, inl, inr, sym, ap, subst, String, some, List, [], ◌∷◌,
  arith, length, eq_iff, found_passes,
}
use stellar_journey.Base.Effect.{Result, returned, thrown}
use stellar_journey.Store.{WebhookDelivery, World, Fault, is_delivery, find_delivery}
use stellar_journey.Api.DeliveryStatus.{delivered as is_delivered, dead_letter as is_dead_letter}
use stellar_journey.Api.DeliveryStatus.Transition.Laws.{HasUniqueDeliveries}
use stellar_journey.Relayer.Retry.{max_webhook_attempts}
use stellar_journey.Relayer.Retry.Laws.{next_webhook_retry_at-some_iff}
use stellar_journey.Relayer.Delivery.{
  WebhookDeliveryDeps, WebhookDeliveryOutcome, skipped_not_claimable, delivered, retry_scheduled,
  dead_letter, process_webhook_delivery,
}
use stellar_journey.Relayer.Delivery.Sending.{DeliveryEnds, Owns}
use stellar_journey.Relayer.Delivery.Laws.{
  IsDeliverable, claimed_delivery, process_webhook_delivery-Ends, process_webhook_delivery_skipped,
}

abbrev pub at_time : ℕ → World → World
at_time time w = record w { clock = time }

-- The jobs that the scheduler queues for one delivery, run at the given times.
unfoldable pub run_attempts : WebhookDeliveryDeps → String → List ℕ → World → World
run_attempts deps id [] w = w
run_attempts deps id (time ∷ times) w =
    run_attempts deps id times (process_webhook_delivery deps id (at_time time w)).1

abbrev pub IsSettled : WebhookDelivery → Type 0
IsSettled delivery = (delivery.status ≡ is_delivered) ⊎ (delivery.status ≡ is_dead_letter)

-- A row that is final, or has enough attempts before it.
abbrev pub Progress : ℕ → WebhookDelivery → Type 0
Progress left delivery =
    IsSettled delivery
    ⊎ (IsDeliverable delivery
        × (delivery.attempt_count < max_webhook_attempts)
        × (max_webhook_attempts ≤ delivery.attempt_count + left))

module _ (deps : WebhookDeliveryDeps) (id : String) where
  -- The row of the delivery, in a store with unique ids.
  pub record Stands (left : ℕ) (w : World) : Type 0 where
    pub unique : HasUniqueDeliveries w.deliveries
    pub delivery : WebhookDelivery
    pub found : find_delivery id w ≡ some delivery
    pub progress : Progress left delivery

  found-id : (w : World) (d : WebhookDelivery) → find_delivery id w ≡ some d → d.id ≡ id
  found-id w d found = (eq_iff d.id id).0 (found_passes (is_delivery id) w.deliveries d found)

  stands :
      (left : ℕ) (w start : World) (d current : WebhookDelivery)
      → d.id ≡ id
      → Owns deps d (d.attempt_count + 1) start w current
      → Progress left current
      → Stands left w
  stands left w start d current same owns progress = record {
    unique = owns.unique;
    delivery = current;
    found = ap (λ k. find_delivery k w) (sym same) ∙ owns.found;
    progress = progress;
  }

  ends-Stands :
      (left : ℕ) (start : World) (d : WebhookDelivery)
      (r : Result Fault WebhookDeliveryOutcome × World)
      → d.id ≡ id
      → max_webhook_attempts ≤ d.attempt_count + suc left
      → DeliveryEnds deps d (d.attempt_count + 1) start r
      → Stands left r.1
  ends-Stands left start d (returned skipped_not_claimable, w) same enough e = absurd e
  ends-Stands left start d (returned delivered, w) same enough e =
      stands left w start d e.0 same e.1 (inl (inl e.2))
  ends-Stands left start d (returned (retry_scheduled at reason), w) same enough e =
      let few =
        ((next_webhook_retry_at-some_iff (d.attempt_count + 1) start.clock).0
          (λ none_left. absurd (cc (none_left, e.4)))).1 in
      stands left w start d e.0 same e.1 (
        inr (
          inr e.2,
          subst (λ n. n < max_webhook_attempts) (sym e.1.count) few,
          omega (arith, e.1.count, enough),
        ))
  ends-Stands left start d (returned (dead_letter reason), w) same enough e =
      stands left w start d e.0 same e.1 (inl (inr e.2))
  ends-Stands left start d (thrown fault, w) same enough e = absurd e

  -- An attempt at a final row changes nothing.
  settled_skipped :
      (w : World) (d : WebhookDelivery)
      → HasUniqueDeliveries w.deliveries
      → find_delivery id w ≡ some d
      → IsSettled d
      → process_webhook_delivery deps id w ≡ (returned skipped_not_claimable, w)
  settled_skipped w d unique found (inl status) =
      process_webhook_delivery_skipped deps id w d unique found (λ e. absurd (cc (e, status)))
        (λ e. absurd (cc (e, status)))
  settled_skipped w d unique found (inr status) =
      process_webhook_delivery_skipped deps id w d unique found (λ e. absurd (cc (e, status)))
        (λ e. absurd (cc (e, status)))

  step :
      (left : ℕ) (w : World)
      → Stands (suc left) w
      → Stands left (process_webhook_delivery deps id w).1
  step left w s = by_progress s.progress
    where
      by_progress :
          Progress (suc left) s.delivery → Stands left (process_webhook_delivery deps id w).1
      by_progress (inl settled) =
          subst (λ r. Stands left r.1) (sym (settled_skipped w s.delivery s.unique s.found settled))
            (record {
              unique = s.unique;
              delivery = s.delivery;
              found = s.found;
              progress = inl settled;
            })
      by_progress (inr (deliverable, few, enough)) =
          ends-Stands left (claimed_delivery s.delivery w) s.delivery
            (process_webhook_delivery deps id w) (found-id w s.delivery s.found) enough
            (process_webhook_delivery-Ends deps id w s.delivery s.unique s.found deliverable)

  run_attempts-Stands :
      (times : List ℕ) (w : World)
      → Stands (length times) w
      → Stands 0 (run_attempts deps id times w)
  unfolding run_attempts
  run_attempts-Stands [] w s = s
  run_attempts-Stands (time ∷ times) w s =
      run_attempts-Stands times (process_webhook_delivery deps id (at_time time w)).1 (
        step (length times) (at_time time w) (record {
          unique = s.unique;
          delivery = s.delivery;
          found = s.found;
          progress = s.progress;
        }))

  none_left : (d : WebhookDelivery) → Progress 0 d → IsSettled d
  none_left d (inl settled) = settled
  none_left d (inr (deliverable, few, enough)) = absurd (omega (arith, few, enough))

  -- Where delivery keys are unique, a delivery that is pending or waits for a retry, with
  -- attempts left, is delivered or dead after as many jobs as the schedule has attempts left or
  -- more, whenever they run and whatever the merchant's server answers.
  pub run_attempts_settles :
      (times : List ℕ) (w : World) (delivery : WebhookDelivery)
      → HasUniqueDeliveries w.deliveries
      → find_delivery id w ≡ some delivery
      → IsDeliverable delivery
      → delivery.attempt_count < max_webhook_attempts
      → max_webhook_attempts ≤ delivery.attempt_count + length times
      → (final : WebhookDelivery) × (find_delivery id (run_attempts deps id times w) ≡ some final)
        × IsSettled final
  run_attempts_settles times w delivery unique found deliverable few enough =
      let end = run_attempts-Stands times w (record {
        unique = unique;
        delivery = delivery;
        found = found;
        progress = inr (deliverable, few, enough);
      }) in
      (end.delivery, end.found, none_left end.delivery end.progress)
