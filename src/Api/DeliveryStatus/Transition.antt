-- ===== src/Api/DeliveryStatus/Transition.antt =====
-- apps/api/src/webhook-state-machine.ts: `transitionWebhookDelivery`, the guarded update of one row.
pub mod Laws
use stellar_journey.Base.{ℕ, String, Bool, ◌&&◌, not, Option, none, count_where, update_where, ◌==◌}
use stellar_journey.Base.Effect.{returned, throw_if, ◌>>=◌, ◌>>◌}
use stellar_journey.Store.{WebhookDelivery, World, Fault, Job, is_delivery, or_keep}
use stellar_journey.Api.ChargeStatus.Transition.{illegal}
use stellar_journey.Api.DeliveryStatus.{
  WebhookDeliveryStatus, eq_delivery_status, is_legal_delivery,
}

-- The `data` argument.
pub record DeliveryPatch : Type 0 where
  pub attempt_count : Option ℕ
  pub next_attempt_at : Option (Option ℕ)

abbrev pub no_delivery_patch : DeliveryPatch
no_delivery_patch = record { attempt_count = none; next_attempt_at = none }

-- `{ status: to, ...data }`.
abbrev pub moved_delivery :
    WebhookDeliveryStatus → DeliveryPatch → WebhookDelivery → WebhookDelivery
moved_delivery to patch row = record row {
  status = to;
  attempt_count = or_keep patch.attempt_count row.attempt_count;
  next_attempt_at = or_keep patch.next_attempt_at row.next_attempt_at;
}

-- `where: { id, status: from }`.
abbrev pub is_delivery_at : String → WebhookDeliveryStatus → WebhookDelivery → Bool
is_delivery_at id from row = is_delivery id row && eq_delivery_status row.status from

abbrev pub move_deliveries :
    String → WebhookDeliveryStatus → WebhookDeliveryStatus → DeliveryPatch → World → World
move_deliveries id from to patch w = record w {
  deliveries = update_where (is_delivery_at id from) (moved_delivery to patch) w.deliveries;
}

-- `updateMany`, which returns how many rows it has updated.
abbrev update_many_deliveries :
    String → WebhookDeliveryStatus → WebhookDeliveryStatus → DeliveryPatch → Job ℕ
update_many_deliveries id from to patch w = (
  returned (count_where (is_delivery_at id from) w.deliveries),
  move_deliveries id from to patch w,
)

unfoldable pub assert_legal_delivery :
    WebhookDeliveryStatus → WebhookDeliveryStatus → Job (Unit {0})
assert_legal_delivery from to = throw_if (not (is_legal_delivery from to)) illegal

unfoldable pub transition_delivery :
    String → WebhookDeliveryStatus → WebhookDeliveryStatus → DeliveryPatch → Job (Unit {0})
unfolding assert_legal_delivery
transition_delivery id from to patch = do
  assert_legal_delivery from to
  count ← update_many_deliveries id from to patch
  throw_if (not (count == 1)) illegal
