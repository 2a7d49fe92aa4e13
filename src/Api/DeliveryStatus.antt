-- ===== src/Api/DeliveryStatus.antt =====
-- apps/api/src/webhook-state-machine.ts: the states of a webhook delivery and the edges between
-- them.
pub mod Transition
use stellar_journey.Base.{Bool, true, false, ◌||◌, List, [], ◌∷◌}

pub data WebhookDeliveryStatus : Type 0 where
  pending delivering delivered retry_scheduled dead_letter : WebhookDeliveryStatus

abbrev pub eq_delivery_status : WebhookDeliveryStatus → WebhookDeliveryStatus → Bool
eq_delivery_status pending pending = true
eq_delivery_status delivering delivering = true
eq_delivery_status delivered delivered = true
eq_delivery_status retry_scheduled retry_scheduled = true
eq_delivery_status dead_letter dead_letter = true
eq_delivery_status _ _ = false

abbrev pub legal_delivery_transitions : WebhookDeliveryStatus → List WebhookDeliveryStatus
legal_delivery_transitions pending = delivering ∷ []
legal_delivery_transitions delivering = delivered ∷ retry_scheduled ∷ dead_letter ∷ []
legal_delivery_transitions retry_scheduled = delivering ∷ []
legal_delivery_transitions delivered = []
legal_delivery_transitions dead_letter = []

-- `allowed.includes(to)`.
abbrev pub includes_delivery : List WebhookDeliveryStatus → WebhookDeliveryStatus → Bool
includes_delivery [] s = false
includes_delivery (t ∷ ts) s = eq_delivery_status t s || includes_delivery ts s

-- The test of `assertLegalWebhookDeliveryTransition`.
abbrev pub is_legal_delivery : WebhookDeliveryStatus → WebhookDeliveryStatus → Bool
is_legal_delivery from to = includes_delivery (legal_delivery_transitions from) to
