-- ===== src/Relayer/Webhook.antt =====
-- apps/relayer/src/webhook.ts: the rows that announce an event to a merchant. The random ids are
-- those of an argument `uuid`, taken in order.
use stellar_journey.Base.{ℕ, ◌+◌, String, none, ◌∷◌}
use stellar_journey.Base.Effect.{modify}
use stellar_journey.Api.DeliveryStatus.{pending}
use stellar_journey.Store.{World, WebhookDelivery, Payload, Job}

pub record EnqueueWebhookInput : Type 0 where
  pub merchant_id : String
  pub event_type : String
  pub payload : Payload

-- The columns that the schema defaults: status `pending`, no attempt yet, created now.
abbrev pub new_delivery : ℕ → String → String → EnqueueWebhookInput → WebhookDelivery
new_delivery clock id event_id input = record {
  id = id;
  merchant_id = input.merchant_id;
  event_id = event_id;
  event_type = input.event_type;
  payload = input.payload;
  attempt_count = 0;
  next_attempt_at = none;
  status = pending;
  created_at = clock;
}

abbrev pub add_delivery : WebhookDelivery → World → World
add_delivery delivery w = record w { deliveries = delivery ∷ w.deliveries; uuids = w.uuids + 2 }

unfoldable pub enqueue_charge_webhook : (ℕ → String) → EnqueueWebhookInput → Job (Unit {0})
enqueue_charge_webhook uuid input =
    modify (λ w. add_delivery (new_delivery w.clock (uuid w.uuids) (uuid (w.uuids + 1)) input) w)
