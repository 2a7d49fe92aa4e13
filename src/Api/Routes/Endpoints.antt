-- ===== src/Api/Routes/Endpoints.antt =====
-- apps/api/src/routes/webhook-endpoints.ts: a merchant registers where its webhooks go, queues a test, and
-- lists its deliveries.
pub mod Registered
use stellar_journey.Base.{
  ℕ, suc, ◌+◌, String, Bool, true, false, not, ◌&&◌, ◌||◌, Option, none, some, List, [], ◌∷◌, map,
  str_eq, ltb, ◌==◌, update_where, truthy, codes, trim, split, units_eq, if◌then◌else◌,
}
use stellar_journey.Base.Effect.{
  Result, returned, thrown, pure, throw, gets, or_throw, ◌>>=◌, ◌>>◌, modify, throw_if,
}
use stellar_journey.Shared.Money.{Units}
use stellar_journey.Shared.UrlGuard.{
  UrlGuardError, invalid_url, invalid_protocol, insecure_protocol, blocked_host,
  dns_resolution_failed, NetDeps, AssertSafeWebhookUrlOptions, Guarded, without_prefix,
  assert_safe_webhook_url,
}
use stellar_journey.Store.{Merchant, WebhookDelivery, World, Fault, api_error, Job, is_merchant}
use stellar_journey.Api.DeliveryStatus.{
  WebhookDeliveryStatus, pending, delivering, delivered, retry_scheduled, dead_letter,
  eq_delivery_status,
}
use stellar_journey.Api.Routes.{validation_error, fresh}
use stellar_journey.Api.Routes.Listing.{find_many}

pub record EndpointDeps : Type 0 where
  pub net : NetDeps
  pub options : AssertSafeWebhookUrlOptions
  -- The format `url` of zod.
  pub is_url : String → Bool
  -- `generateWebhookSecret`, `encryptWebhookSecret`, `randomHexId32` and the database's `uuid()`.
  pub generate_webhook_secret : ℕ → String
  pub encrypt_webhook_secret : String → String → String
  pub webhook_encryption_key : String
  pub random_hex_id : ℕ → String
  pub uuid : ℕ → String

pub record RegisteredEndpoint : Type 0 where
  pub webhook_url : String
  pub webhook_secret : String

pub record EndpointStatus : Type 0 where
  pub configured : Bool
  pub webhook_url : Option String

pub record QueuedTest : Type 0 where
  pub id : String
  pub event_id : String
  pub status : WebhookDeliveryStatus
  pub created_at : ℕ

-- A delivery as it is listed; `updatedAt` is left out.
pub record WebhookDeliveryResponse : Type 0 where
  pub id : String
  pub event_id : String
  pub event_type : String
  pub status : WebhookDeliveryStatus
  pub attempt_count : ℕ
  pub next_attempt_at : Option ℕ
  pub created_at : ℕ

abbrev pub to_webhook_delivery_response : WebhookDelivery → WebhookDeliveryResponse
to_webhook_delivery_response delivery = record {
  id = delivery.id;
  event_id = delivery.event_id;
  event_type = delivery.event_type;
  status = delivery.status;
  attempt_count = delivery.attempt_count;
  next_attempt_at = delivery.next_attempt_at;
  created_at = delivery.created_at;
}

abbrev pub starts_with : String → Units → Bool
starts_with prefix s = is_rest (without_prefix (codes prefix) s)
  where
    is_rest : Option Units → Bool
    is_rest none = false
    is_rest (some rest) = true

-- `WebhookUrlSchema` of apps/api/src/schemas/common.ts.
unfoldable pub is_webhook_url : (String → Bool) → String → Bool
is_webhook_url is_url url =
    is_url url && (starts_with "http://" (codes url) || starts_with "https://" (codes url))

abbrev pub code_of : UrlGuardError → String
code_of invalid_url = "INVALID_URL"
code_of invalid_protocol = "INVALID_PROTOCOL"
code_of insecure_protocol = "INSECURE_PROTOCOL"
code_of blocked_host = "BLOCKED_HOST"
code_of dns_resolution_failed = "DNS_RESOLUTION_FAILED"

abbrev pub refuse_unsafe : Guarded → Job (Unit {0})
refuse_unsafe (returned info) = pure tt
refuse_unsafe (thrown error) = throw (api_error 400 (code_of error))

-- The statuses of the enum, by their names.
abbrev pub status_of : Units → Option WebhookDeliveryStatus
status_of s =
    if units_eq s (codes "pending")
    then some pending
    else (if units_eq s (codes "delivering")
        then some delivering
        else (if units_eq s (codes "delivered")
            then some delivered
            else (if units_eq s (codes "retry_scheduled")
                then some retry_scheduled
                else (if units_eq s (codes "dead_letter") then some dead_letter else none))))

abbrev pub with_status :
    Option WebhookDeliveryStatus
    → Option (List WebhookDeliveryStatus)
    → Option (List WebhookDeliveryStatus)
with_status (some s) (some ss) = some (s ∷ ss)
with_status _ _ = none

unfoldable pub parse_statuses : List Units → Option (List WebhookDeliveryStatus)
parse_statuses [] = some []
parse_statuses (s ∷ ss) = with_status (status_of (trim s)) (parse_statuses ss)

abbrev pub is_among : List WebhookDeliveryStatus → WebhookDeliveryStatus → Bool
is_among [] status = false
is_among (s ∷ ss) status = eq_delivery_status s status || is_among ss status

-- The filter of a query; `none` for a status that there is not.
abbrev pub status_filter : Option String → Option (WebhookDeliveryStatus → Bool)
status_filter none = some (λ status. true)
status_filter (some text) = of_statuses (parse_statuses (split b',' (codes text)))
  where
    of_statuses : Option (List WebhookDeliveryStatus) → Option (WebhookDeliveryStatus → Bool)
    of_statuses none = none
    of_statuses (some statuses) = some (is_among statuses)

abbrev pub is_set : Option String → Bool
is_set none = false
is_set (some s) = true

module _ (merchant : Merchant) where
  unfoldable pub get_webhook_endpoint : Job EndpointStatus
  get_webhook_endpoint = pure (record {
    configured = is_set merchant.webhook_url && is_set merchant.webhook_secret;
    webhook_url = merchant.webhook_url;
  })

  abbrev pub deliveries_where :
      ℕ → (WebhookDeliveryStatus → Bool) → World → List WebhookDeliveryResponse
  deliveries_where limit passes w = map to_webhook_delivery_response (
      find_many (λ row. row.created_at)
        (λ row. str_eq row.merchant_id merchant.id && passes row.status) limit w.deliveries)

  unfoldable pub list_webhook_deliveries : Option String → ℕ → Job (List WebhookDeliveryResponse)
  list_webhook_deliveries status limit = do
    throw_if (limit == 0 || ltb 100 limit) validation_error
    passes ← or_throw (status_filter status) (api_error 400 "INVALID_STATUS_FILTER")
    gets (deliveries_where limit passes)

  module _ (deps : EndpointDeps) where
    abbrev pub guarded_webhook_url : String → Job (Unit {0})
    guarded_webhook_url url =
        refuse_unsafe (assert_safe_webhook_url deps.net deps.options (codes url))

    abbrev pub set_endpoint : String → String → Merchant → Merchant
    set_endpoint url sealed row = record row {
      webhook_url = some url;
      webhook_secret = some sealed;
    }

    abbrev pub store_endpoint : String → String → World → World
    store_endpoint url sealed w = record w {
      merchants = update_where (is_merchant merchant.id) (set_endpoint url sealed) w.merchants;
    }

    abbrev pub new_endpoint : String → Job RegisteredEndpoint
    new_endpoint url = do
      secret ← fresh deps.generate_webhook_secret
      modify (store_endpoint url (deps.encrypt_webhook_secret secret deps.webhook_encryption_key))
      pure (record { webhook_url = url; webhook_secret = secret })

    unfoldable pub register_webhook_endpoint : String → Job RegisteredEndpoint
    register_webhook_endpoint url = do
      throw_if (not (is_webhook_url deps.is_url url)) validation_error
      guarded_webhook_url url
      new_endpoint url

    abbrev pub test_delivery : String → String → String → ℕ → WebhookDelivery
    test_delivery id event_id url clock = record {
      id = id;
      merchant_id = merchant.id;
      event_id = event_id;
      event_type = "webhook.test";
      payload = ("url", url) ∷ ("message", "This is a test event from Paymap.") ∷ [];
      attempt_count = 0;
      next_attempt_at = none;
      status = pending;
      created_at = clock;
    }

    abbrev pub add_test : WebhookDelivery → World → World
    add_test delivery w = record w { deliveries = delivery ∷ w.deliveries }

    abbrev pub queue_test : String → Job QueuedTest
    queue_test url = do
      event_id ← fresh deps.random_hex_id
      id ← fresh deps.uuid
      clock ← gets (λ w. w.clock)
      modify (add_test (test_delivery id event_id url clock))
      pure (record { id = id; event_id = event_id; status = pending; created_at = clock })

    unfoldable pub test_webhook_endpoint : String → Job QueuedTest
    test_webhook_endpoint url = do
      throw_if (not (is_webhook_url deps.is_url url)) validation_error
      guarded_webhook_url url
      queue_test url
