-- ===== src/Relayer/Delivery/Classify.antt =====
-- apps/relayer/src/webhook-classify.ts: what an answer to a webhook request means.
use stellar_journey.Base.{
  ℕ, String, ◌&&◌, ◌||◌, Option, none, some, leb, ltb, ◌==◌, if◌then◌else◌, truthy, join,
}

pub data WebhookResponseClass : Type 0 where
  success retryable permanent : WebhookResponseClass

-- `WebhookDeliveryOutcome` of webhook-classify.ts.
pub data HttpOutcome : Type 0 where
  http : ℕ → HttpOutcome
  timeout : HttpOutcome
  network_error : String → HttpOutcome
  redirect : ℕ → Option String → HttpOutcome
  ssrf_blocked : String → HttpOutcome

unfoldable pub classify_webhook_delivery_outcome : HttpOutcome → WebhookResponseClass
classify_webhook_delivery_outcome timeout = retryable
classify_webhook_delivery_outcome (network_error message) = retryable
classify_webhook_delivery_outcome (redirect status location) = permanent
classify_webhook_delivery_outcome (ssrf_blocked message) = permanent
classify_webhook_delivery_outcome (http status) =
    if leb 200 status && ltb status 300
    then success
    else (if status == 408 || status == 429
        then retryable
        else (if leb 500 status then retryable else permanent))

-- `location ? …`.
abbrev pub location_text : Option String → String
location_text none = ""
location_text (some location) = join ", location \"" (join location "\"")

abbrev pub describe_webhook_delivery_outcome : (ℕ → String) → HttpOutcome → String
describe_webhook_delivery_outcome shown timeout = "TIMEOUT"
describe_webhook_delivery_outcome shown (network_error message) = join "NETWORK_ERROR: " message
describe_webhook_delivery_outcome shown (redirect status location) =
    join "REDIRECT_NOT_ALLOWED (status "
      (join (shown status) (join (location_text (truthy location)) ")"))
describe_webhook_delivery_outcome shown (ssrf_blocked message) = join "SSRF_BLOCKED: " message
describe_webhook_delivery_outcome shown (http status) = join "HTTP_" (shown status)
