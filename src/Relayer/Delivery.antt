-- ===== src/Relayer/Delivery.antt =====
-- apps/relayer/src/webhook-delivery.ts: one attempt to send a webhook.
pub mod Classify
pub mod Sending
pub mod Laws
pub mod Eventually
use stellar_journey.Base.{
  ℕ, ◌+◌, ◌/◌, String, Bool, true, false, Option, none, some, str_eq, truthy, find_where, join, ◌∷◌,
  if◌then◌else◌,
}
use stellar_journey.Base.Effect.{pure, throw, gets, or_throw, ◌>>=◌, ◌>>◌, handle, modify}
use stellar_journey.Store.{
  WebhookDelivery, Merchant, Envelope, Post, World, Fault, api_error, missing_row, Job, is_merchant,
  find_delivery,
}
use stellar_journey.Api.DeliveryStatus.{
  WebhookDeliveryStatus, pending, delivering, delivered as is_delivered,
  retry_scheduled as is_retry_scheduled, dead_letter as is_dead_letter,
}
use stellar_journey.Api.DeliveryStatus.Transition.{
  DeliveryPatch, no_delivery_patch, transition_delivery,
}
use stellar_journey.Relayer.Retry.{next_webhook_retry_at}
use stellar_journey.Relayer.Delivery.Classify.{
  WebhookResponseClass, success, retryable, permanent, HttpOutcome,
  classify_webhook_delivery_outcome, describe_webhook_delivery_outcome,
}

pub record WebhookDeliveryDeps : Type 0 where
  pub webhook_encryption_key : String
  -- `decryptWebhookSecret`, with `none` where it throws a `WebhookSecretCryptoError`.
  pub decrypt_webhook_secret : String → String → Option String
  -- `sendWebhook`.
  pub send : Post → HttpOutcome
  -- `String` of a number.
  pub shown : ℕ → String

pub data WebhookDeliveryOutcome : Type 0 where
  skipped_not_claimable delivered : WebhookDeliveryOutcome
  retry_scheduled : ℕ → String → WebhookDeliveryOutcome
  dead_letter : String → WebhookDeliveryOutcome

abbrev pub claim_delivery_from : WebhookDeliveryStatus → WebhookDeliveryStatus
claim_delivery_from is_retry_scheduled = is_retry_scheduled
claim_delivery_from _ = pending

abbrev pub attempt_patch : ℕ → DeliveryPatch
attempt_patch attempts = record no_delivery_patch { attempt_count = some attempts }

-- `data` of a transition that sets only the time of the next attempt.
abbrev pub next_attempt_patch : Option ℕ → DeliveryPatch
next_attempt_patch at = record no_delivery_patch { next_attempt_at = some at }

abbrev pub envelope_of : WebhookDelivery → Envelope
envelope_of delivery = record {
  event_id = delivery.event_id;
  event_type = delivery.event_type;
  created_at = delivery.created_at;
  signature_version = "v1";
  payload = delivery.payload;
}

-- The URL and the secret of a merchant that has both, neither of them empty.
abbrev pub both : Option String → Option String → Option (String × String)
both (some url) (some secret) = some (url, secret)
both _ _ = none

abbrev pub endpoint_of : Option Merchant → Option (String × String)
endpoint_of none = none
endpoint_of (some merchant) = both (truthy merchant.webhook_url) (truthy merchant.webhook_secret)

abbrev pub log_post : Post → World → World
log_post post w = record w { posts = post ∷ w.posts }

abbrev pub post_of : WebhookDelivery → String → String → ℕ → Post
post_of delivery url secret clock = record {
  url = url;
  event_id = delivery.event_id;
  timestamp_seconds = clock / 1000;
  body = envelope_of delivery;
  secret = secret;
}

module _ (deps : WebhookDeliveryDeps) (delivery : WebhookDelivery) (attempt_count : ℕ) where
  unfoldable pub dead_letter_with : String → Job WebhookDeliveryOutcome
  dead_letter_with reason = do
    transition_delivery delivery.id delivering is_dead_letter (next_attempt_patch none)
    pure (dead_letter reason)

  unfoldable pub reschedule : String → Option ℕ → Job WebhookDeliveryOutcome
  reschedule reason none =
      dead_letter_with (join "RETRY_SCHEDULE_EXHAUSTED (last: " (join reason ")"))
  reschedule reason (some retry_at) = do
    transition_delivery delivery.id delivering is_retry_scheduled
        (next_attempt_patch (some retry_at))
    pure (retry_scheduled retry_at reason)

  -- The transition that the class of the response asks for.
  unfoldable pub settle_response : String → WebhookResponseClass → Job WebhookDeliveryOutcome
  settle_response reason success = do
    transition_delivery delivery.id delivering is_delivered no_delivery_patch
    pure delivered
  settle_response reason permanent = dead_letter_with reason
  settle_response reason retryable = do
    retry_at ← gets (λ w. next_webhook_retry_at attempt_count w.clock)
    reschedule reason retry_at

  unfoldable pub send_to : String → String → Job WebhookDeliveryOutcome
  send_to url secret = do
    post ← gets (λ w. post_of delivery url secret w.clock)
    modify (log_post post)
    settle_response (describe_webhook_delivery_outcome deps.shown (deps.send post))
        (classify_webhook_delivery_outcome (deps.send post))

  unfoldable pub decrypted : String → Option String → Job WebhookDeliveryOutcome
  decrypted url none = dead_letter_with "WEBHOOK_SECRET_DECRYPT_FAILED"
  decrypted url (some secret) = send_to url secret

  unfoldable pub deliver_to : Option (String × String) → Job WebhookDeliveryOutcome
  deliver_to none = dead_letter_with "WEBHOOK_ENDPOINT_NOT_CONFIGURED"
  deliver_to (some (url, sealed)) =
      decrypted url (deps.decrypt_webhook_secret sealed deps.webhook_encryption_key)

  -- Everything after the claim.
  unfoldable pub run_delivery : Job WebhookDeliveryOutcome
  run_delivery = do
    merchant ← gets (λ w. find_where (is_merchant delivery.merchant_id) w.merchants)
    deliver_to (endpoint_of merchant)

-- The `catch` of the claim.
abbrev pub lost_delivery : Fault → Job WebhookDeliveryOutcome
lost_delivery (api_error status code) =
    if str_eq code "InvalidStateTransition"
    then pure skipped_not_claimable
    else throw (api_error status code)
lost_delivery e = throw e

unfoldable pub claim_delivery : WebhookDeliveryDeps → WebhookDelivery → Job WebhookDeliveryOutcome
claim_delivery deps delivery w =
    handle lost_delivery (λ _. run_delivery deps delivery (delivery.attempt_count + 1))
      (transition_delivery delivery.id (claim_delivery_from delivery.status) delivering
        (attempt_patch (delivery.attempt_count + 1)) w)

unfoldable pub process_webhook_delivery : WebhookDeliveryDeps → String → Job WebhookDeliveryOutcome
process_webhook_delivery deps id = do
  found ← gets (find_delivery id)
  delivery ← or_throw found (missing_row id)
  claim_delivery deps delivery
