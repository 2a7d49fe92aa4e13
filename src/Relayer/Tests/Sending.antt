-- ===== src/Relayer/Tests/Sending.antt =====
-- Requests of apps/relayer/src/webhook-http.ts, the jobs of one delivery, and a charge on its way to the
-- queue, on small inputs.
use stellar_journey.Base.{
  ℕ, ◌≤◌, ◌<◌, ◌≡◌, ◌⊎◌, inl, inr, refl, String, Bool, true, false, Option, none, some, List, [],
  ◌∷◌, arith, codes, units_eq, if◌then◌else◌, find_where,
}
use stellar_journey.Base.Effect.{returned}
use stellar_journey.Shared.Money.{Units}
use stellar_journey.Shared.Signature.{digest, verify_webhook_signature}
use stellar_journey.Shared.UrlGuard.{ResolvedHostAddress, NetDeps}
use stellar_journey.Store.{WebhookDelivery, find_delivery}
use stellar_journey.Relayer.Delivery.Classify.{http}
use stellar_journey.Relayer.Delivery.Eventually.{IsSettled, run_attempts, run_attempts_settles}
use stellar_journey.Relayer.Http.{
  SendWebhookInput, Request, HttpDeps, response, request_to, send_webhook,
}
use stellar_journey.Relayer.Http.Safety.{SentTo, send_webhook-SentTo, send_webhook-verified}
use stellar_journey.Api.Tests.Charging.{
  charge_deps, merchant, world as charged_world, after, queued_charge, authorization,
  found_authorization, completes,
}
use stellar_journey.Relayer.Scheduler.{schedule_due_charge_requests}
use stellar_journey.Relayer.Scheduler.Queued.{completed-Queued}
use stellar_journey.Relayer.Tests.Scheduling.{Queued, add, adds}
use stellar_journey.Relayer.Tests.{delivery_deps, delivery, one_delivery, found_delivery, world}

abbrev address : ResolvedHostAddress
address = record { address = codes "93.184.1.2"; family = 4 }

-- A net with one host, of one public address, whose server answers with success.
abbrev http_deps : HttpDeps
http_deps = record {
  net = record {
    parse_url = λ raw. some (record { protocol = codes "https:"; hostname = codes "shop" });
    is_ip = λ s. if units_eq s (codes "shop") then 0 else 4;
    resolve_host = λ host. some (address ∷ []);
  };
  hmac = λ secret message. codes "aa";
  other = λ s. none;
  message = λ error. "unsafe";
  fetch = λ request. response 200 none;
}

abbrev webhook : SendWebhookInput
webhook = record {
  url = codes "https://shop/";
  event_id = codes "e1";
  timestamp_seconds = 7;
  raw_body = codes "{}";
  secret = codes "s";
  options = record { allow_insecure_http = false; allow_private_addresses = false };
  timeout_ms = none;
}

abbrev sent : Request
sent = request_to http_deps webhook address

sends : send_webhook http_deps webhook ≡ (http 200, sent ∷ [])
unfolding send_webhook stellar_journey.Shared.UrlGuard.assert_safe_webhook_url
    stellar_journey.Shared.UrlGuard.check_url units_eq stellar_journey.Shared.UrlGuard.check_host
    stellar_journey.Shared.UrlGuard.to_lower stellar_journey.Shared.UrlGuard.bare_hostname
    stellar_journey.Shared.UrlGuard.any_blocked stellar_journey.Shared.UrlGuard.is_blocked_address
    stellar_journey.Shared.UrlGuard.is_private_or_reserved_ipv4 stellar_journey.Base.split
    stellar_journey.Shared.Money.is_number stellar_journey.Shared.Money.all_digits
    stellar_journey.Shared.UrlGuard.is_private_octets stellar_journey.Shared.Money.value
    stellar_journey.Relayer.Http.outcome_of
sends = refl

send_webhook-SentTo_example : SentTo http_deps webhook (http 200) sent []
send_webhook-SentTo_example = send_webhook-SentTo http_deps webhook (http 200) sent [] sends

send_webhook-verified_example :
    verify_webhook_signature http_deps.hmac http_deps.other (record {
      raw_body = sent.body;
      header = sent.signature_header;
      secret = webhook.secret;
      tolerance_seconds = some 5;
      now = 9;
    })
    ≡ returned (record {
      timestamp_seconds = 7;
      event_id = codes "e1";
      signature =
          digest http_deps.hmac http_deps.other webhook.secret 7 webhook.event_id webhook.raw_body;
    })
unfolding stellar_journey.Base.all_where stellar_journey.Base.is_space
send_webhook-verified_example =
    send_webhook-verified http_deps webhook (http 200) sent [] 9 (some 5) refl (omega arith) refl
      (omega arith) (omega arith) sends

run_attempts_settles_example :
    let end = run_attempts delivery_deps "d1" (1 ∷ 2 ∷ 3 ∷ 4 ∷ 5 ∷ 6 ∷ []) world in
    (final : WebhookDelivery) × (find_delivery "d1" end ≡ some final) × IsSettled final
run_attempts_settles_example =
    run_attempts_settles delivery_deps "d1" (1 ∷ 2 ∷ 3 ∷ 4 ∷ 5 ∷ 6 ∷ []) world delivery
      (one_delivery delivery) (found_delivery delivery refl) (inl refl) (omega arith) (omega arith)

completed-Queued_example : Queued "uuid" (schedule_due_charge_requests add 60000 after []).2
unfolding stellar_journey.Api.Routes.Charges.to_charge_request_response
completed-Queued_example =
    completed-Queued add Queued adds charge_deps merchant "a1" "signed" charged_world after
      queued_charge authorization 60000 [] found_authorization (omega arith) completes
