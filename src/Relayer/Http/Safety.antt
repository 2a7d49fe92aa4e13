-- ===== src/Relayer/Http/Safety.antt =====
-- Which requests `sendWebhook` of apps/relayer/src/webhook-http.ts makes, and what its outcome tells.
use stellar_journey.Base.{
  ℕ, ◌≤◌, ◌<◌, ◌≡◌, ◌⊎◌, ◌↔◌, refl, sym, ap, ◌∙◌, subst, String, true, false, Option, List, [], ◌∷◌,
  length, arith,
}
use stellar_journey.Base.Effect.{returned, thrown}
use stellar_journey.Shared.Signature.{digest, verify_webhook_signature, or_default, apart}
use stellar_journey.Shared.Signature.RoundTrip.{AllPlain, verify-sign}
use stellar_journey.Shared.UrlGuard.{
  ResolvedHostAddress, SafeWebhookUrlInfo, Guarded, is_blocked_address, any_blocked,
  assert_safe_webhook_url,
}
use stellar_journey.Shared.UrlGuard.Approval.{Approved, assert_safe_webhook_url-Approved}
use stellar_journey.Relayer.Delivery.Classify.{
  HttpOutcome, http, success, classify_webhook_delivery_outcome,
}
use stellar_journey.Relayer.Http.{
  SendWebhookInput, Request, FetchAnswer, response, timed_out, failed, HttpDeps, Sent, sign_input,
  outcome_of, request_to, send_pinned, send_guarded, send_webhook,
}

module _ (deps : HttpDeps) (input : SendWebhookInput) where
  -- A request that the guard has approved.
  pub record SentTo (outcome : HttpOutcome) (request : Request) (others : List Request)
      : Type 0 where
    pub info : SafeWebhookUrlInfo
    pub approved : Approved deps.net input.options input.url info
    pub first : ResolvedHostAddress
    pub rest : List ResolvedHostAddress
    pub addressed : info.resolved_addresses ≡ first ∷ rest
    pub pinned : request ≡ request_to deps input first
    pub unblocked :
        (input.options.allow_private_addresses ≡ true)
        ⊎ (is_blocked_address deps.net request.pinned_address ≡ false)
    pub alone : others ≡ []
    pub answered : outcome ≡ outcome_of (deps.fetch request)

  first_unblocked :
      (first : ResolvedHostAddress) (rest : List ResolvedHostAddress)
      → (input.options.allow_private_addresses ≡ true)
        ⊎ (any_blocked deps.net (first ∷ rest) ≡ false)
      → (input.options.allow_private_addresses ≡ true)
        ⊎ (is_blocked_address deps.net first.address ≡ false)
  unfolding any_blocked
  first_unblocked first rest h = ground arith

  send_pinned_inv :
      (l : List ResolvedHostAddress) (outcome : HttpOutcome) (request : Request)
      (others : List Request)
      → send_pinned deps input l ≡ (outcome, request ∷ others)
      → (a : ResolvedHostAddress) × (r : List ResolvedHostAddress) × (l ≡ a ∷ r)
        × (request ≡ request_to deps input a)
        × (others ≡ [])
        × (outcome ≡ outcome_of (deps.fetch (request_to deps input a)))
  send_pinned_inv [] outcome request others e = ground arith
  send_pinned_inv (a ∷ r) outcome request others e =
      (a, r, refl, ground arith, ground arith, ground arith)

  guarded-SentTo :
      (g : Guarded) (outcome : HttpOutcome) (request : Request) (others : List Request)
      → assert_safe_webhook_url deps.net input.options input.url ≡ g
      → send_guarded deps input g ≡ (outcome, request ∷ others)
      → SentTo outcome request others
  guarded-SentTo (thrown error) outcome request others p e = ground arith
  guarded-SentTo (returned info) outcome request others p e =
      let inv = send_pinned_inv info.resolved_addresses outcome request others e in
      let ok = assert_safe_webhook_url-Approved deps.net input.options input.url info p in
      let a = inv.0 in
      let r = inv.1 in
      record {
        info = info;
        approved = ok;
        first = a;
        rest = r;
        addressed = inv.2;
        pinned = inv.3;
        unblocked =
            subst
              (λ q.
                (input.options.allow_private_addresses ≡ true)
                ⊎ (is_blocked_address deps.net q.pinned_address ≡ false))
              (sym inv.3)
              (first_unblocked a r (
                subst
                  (λ l.
                    (input.options.allow_private_addresses ≡ true)
                    ⊎ (any_blocked deps.net l ≡ false))
                  inv.2 ok.no_blocked));
        alone = inv.4;
        answered = inv.5 ∙ ap (λ q. outcome_of (deps.fetch q)) (sym inv.3);
      }

  -- Where sending a webhook makes a request, it is the only one; the guard has approved its URL,
  -- the connection is pinned to the first approved address, which is not a blocked one unless
  -- private addresses are allowed, and the outcome is what the answer to that request says.
  pub send_webhook-SentTo :
      (outcome : HttpOutcome) (request : Request) (others : List Request)
      → send_webhook deps input ≡ (outcome, request ∷ others)
      → SentTo outcome request others
  unfolding send_webhook
  send_webhook-SentTo outcome request others e =
      guarded-SentTo (assert_safe_webhook_url deps.net input.options input.url) outcome request
        others refl e

  outcome_of-success :
      (a : FetchAnswer)
      → (classify_webhook_delivery_outcome (outcome_of a) ≡ success) ↔ (
          (status : ℕ) × (location : Option String) × (a ≡ response status location)
          × (200 ≤ status)
          × (status < 300))
  unfolding outcome_of classify_webhook_delivery_outcome
  outcome_of-success (response status location) =
      (λ h. (status, location, refl, ground arith, ground arith), λ h. ground arith)
  outcome_of-success timed_out = ground arith
  outcome_of-success (failed m) = ground arith

  outcome_of-below :
      (status : ℕ) (location : Option String)
      → status < 300
      → outcome_of (response status location) ≡ http status
  unfolding outcome_of
  outcome_of-below status location h = ground arith

  -- The request of a delivery that counts as a success.
  abbrev pub Delivered : Sent → Type 0
  Delivered sent =
      (request : Request) × (status : ℕ) × (location : Option String) × (sent
        ≡ (http status, request ∷ []))
      × (deps.fetch request ≡ response status location)
      × (200 ≤ status)
      × (status < 300)

  send_pinned-Delivered :
      (l : List ResolvedHostAddress)
      → classify_webhook_delivery_outcome (send_pinned deps input l).0 ≡ success
      → Delivered (send_pinned deps input l)
  unfolding classify_webhook_delivery_outcome
  send_pinned-Delivered [] h = ground arith
  send_pinned-Delivered (a ∷ r) h =
      let request = request_to deps input a in
      let inv = (outcome_of-success (deps.fetch request)).0 h in
      (
        request,
        inv.0,
        inv.1,
        ap (λ o. (o, request ∷ [])) (ap outcome_of inv.2 ∙ outcome_of-below inv.0 inv.1 inv.4),
        inv.2,
        inv.3,
        inv.4,
      )

  send_guarded-Delivered :
      (g : Guarded)
      → classify_webhook_delivery_outcome (send_guarded deps input g).0 ≡ success
      → Delivered (send_guarded deps input g)
  unfolding classify_webhook_delivery_outcome
  send_guarded-Delivered (thrown error) h = ground arith
  send_guarded-Delivered (returned guard) h = send_pinned-Delivered guard.resolved_addresses h

  -- A sending that counts as a success has made one request, answered with a status of 2xx.
  pub send_webhook-Delivered :
      classify_webhook_delivery_outcome (send_webhook deps input).0 ≡ success
      → Delivered (send_webhook deps input)
  unfolding send_webhook
  send_webhook-Delivered h =
      send_guarded-Delivered (assert_safe_webhook_url deps.net input.options input.url) h

  -- For an event id and a digest of characters that are neither commas nor spaces, the header of
  -- a request that is sent verifies with the same secret, on the body that is sent, at every time
  -- within the tolerance of its time stamp, and gives back that time and the event id.
  pub send_webhook-verified :
      (outcome : HttpOutcome) (request : Request) (others : List Request) (now : ℕ)
      (tolerance : Option ℕ)
      → AllPlain input.event_id
      → 0 < length input.event_id
      → let code =
          digest deps.hmac deps.other input.secret input.timestamp_seconds input.event_id
            input.raw_body in
        AllPlain code
        → 0 < length code
        → apart deps.hmac deps.other now input.timestamp_seconds
          ≤ or_default deps.hmac deps.other tolerance
        → send_webhook deps input ≡ (outcome, request ∷ others)
        → verify_webhook_signature deps.hmac deps.other (record {
          raw_body = request.body;
          header = request.signature_header;
          secret = input.secret;
          tolerance_seconds = tolerance;
          now = now;
        })
          ≡ returned (record {
            timestamp_seconds = input.timestamp_seconds;
            event_id = input.event_id;
            signature = code;
          })
  send_webhook-verified outcome request others now tolerance id_plain some_id code_plain some_code
        near e =
      rw
        (
          (send_webhook-SentTo outcome request others e).pinned,
          verify-sign deps.hmac deps.other (sign_input input) now tolerance id_plain some_id
              code_plain some_code near,
        )
        refl
