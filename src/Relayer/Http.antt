-- ===== src/Relayer/Http.antt =====
-- apps/relayer/src/webhook-http.ts: the one place that sends a webhook. The URL is checked, the connection is
-- pinned to the first approved address, and the body is signed. `undici.fetch` is a parameter. Each function
-- returns its outcome with the requests that it made.
pub mod Safety
use stellar_journey.Base.{
  ℕ, String, Bool, true, false, ◌&&◌, Option, none, some, List, [], ◌∷◌, leb, ltb, if◌then◌else◌,
}
use stellar_journey.Base.Effect.{Result, returned, thrown}
use stellar_journey.Shared.Money.{Units}
use stellar_journey.Shared.Signature.{SignWebhookInput, sign_webhook_payload}
use stellar_journey.Shared.UrlGuard.{
  UrlGuardError, ResolvedHostAddress, NetDeps, AssertSafeWebhookUrlOptions, SafeWebhookUrlInfo,
  Guarded, assert_safe_webhook_url,
}
use stellar_journey.Relayer.Delivery.Classify.{
  HttpOutcome, http, timeout, network_error, redirect, ssrf_blocked,
}

pub record SendWebhookInput : Type 0 where
  pub url : Units
  pub event_id : Units
  pub timestamp_seconds : ℕ
  pub raw_body : Units
  pub secret : Units
  pub options : AssertSafeWebhookUrlOptions
  pub timeout_ms : Option ℕ

abbrev pub default_timeout_ms : ℕ
default_timeout_ms = 10000

-- A request with its pinned dispatcher; it does not follow a redirect.
pub record Request : Type 0 where
  pub url : Units
  pub pinned_address : Units
  pub pinned_family : ℕ
  pub signature_header : Units
  pub body : Units
  pub timeout_ms : ℕ

-- What `fetch` does: a response with its status and location, an abort by the timer, or another error.
pub data FetchAnswer : Type 0 where
  response : ℕ → Option String → FetchAnswer
  timed_out : FetchAnswer
  failed : String → FetchAnswer

pub record HttpDeps : Type 0 where
  pub net : NetDeps
  pub hmac : Units → Units → Units
  pub other : Units → Option ℕ
  -- The message of an `UnsafeWebhookUrlError`.
  pub message : UrlGuardError → String
  pub fetch : Request → FetchAnswer

abbrev pub Sent : Type 0
Sent = HttpOutcome × List Request

abbrev pub or_default_timeout : Option ℕ → ℕ
or_default_timeout none = default_timeout_ms
or_default_timeout (some ms) = ms

abbrev pub sign_input : SendWebhookInput → SignWebhookInput
sign_input input = record {
  secret = input.secret;
  event_id = input.event_id;
  timestamp_seconds = input.timestamp_seconds;
  raw_body = input.raw_body;
}

unfoldable pub outcome_of : FetchAnswer → HttpOutcome
outcome_of (response status location) =
    if leb 300 status && ltb status 400 then redirect status location else http status
outcome_of timed_out = timeout
outcome_of (failed message) = network_error message

module _ (deps : HttpDeps) (input : SendWebhookInput) where
  abbrev pub request_to : ResolvedHostAddress → Request
  request_to pinned = record {
    url = input.url;
    pinned_address = pinned.address;
    pinned_family = pinned.family;
    signature_header = sign_webhook_payload deps.hmac deps.other (sign_input input);
    body = input.raw_body;
    timeout_ms = or_default_timeout input.timeout_ms;
  }

  abbrev pub send_pinned : List ResolvedHostAddress → Sent
  send_pinned [] =
      (ssrf_blocked "No resolved address available to pin the delivery connection to.", [])
  send_pinned (pinned ∷ others) =
      (outcome_of (deps.fetch (request_to pinned)), request_to pinned ∷ [])

  abbrev pub send_guarded : Guarded → Sent
  send_guarded (thrown error) = (ssrf_blocked (deps.message error), [])
  send_guarded (returned guard) = send_pinned guard.resolved_addresses

  unfoldable pub send_webhook : Sent
  send_webhook = send_guarded (assert_safe_webhook_url deps.net input.options input.url)
