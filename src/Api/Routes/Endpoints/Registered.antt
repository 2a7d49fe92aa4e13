-- ===== src/Api/Routes/Endpoints/Registered.antt =====
-- A registered endpoint (apps/api/src/routes/webhook-endpoints.ts) is safe, and gets the deliveries
-- (apps/relayer/src/webhook-delivery.ts).
use stellar_journey.Base.{◌≡◌, refl, String, true, not, update_where, codes, not-false}
use stellar_journey.Base.Effect.{returned, thrown, and_then, ◌>>◌}
use stellar_journey.Base.Effect.Inversion.{throw_if_inv}
use stellar_journey.Shared.UrlGuard.{Guarded, SafeWebhookUrlInfo, assert_safe_webhook_url}
use stellar_journey.Shared.UrlGuard.Approval.{Approved, assert_safe_webhook_url-Approved}
use stellar_journey.Store.{Merchant, World, Job, is_merchant}
use stellar_journey.Api.Routes.{validation_error}
use stellar_journey.Api.Routes.Endpoints.{
  EndpointDeps, RegisteredEndpoint, is_webhook_url, refuse_unsafe, guarded_webhook_url,
  set_endpoint, new_endpoint, register_webhook_endpoint,
}

module _ (merchant : Merchant) (deps : EndpointDeps) where
  -- The endpoint of a merchant that an answer shows.
  pub record IsRegistered (url : String) (w w' : World) (endpoint : RegisteredEndpoint)
      : Type 0 where
    pub format : is_webhook_url deps.is_url url ≡ true
    pub info : SafeWebhookUrlInfo
    pub approved : Approved deps.net deps.options (codes url) info
    pub same_url : endpoint.webhook_url ≡ url
    pub stored :
        w'.merchants
        ≡ update_where
            (is_merchant merchant.id)
            (set_endpoint merchant deps url
              (deps.encrypt_webhook_secret endpoint.webhook_secret deps.webhook_encryption_key))
            w.merchants

  refuse_unsafe_inv :
      (g : Guarded) (k : Job RegisteredEndpoint) (w w' : World) (endpoint : RegisteredEndpoint)
      → and_then (λ _. k) (refuse_unsafe g w) ≡ (returned endpoint, w')
      → (info : SafeWebhookUrlInfo) × (g ≡ returned info) × (k w ≡ (returned endpoint, w'))
  refuse_unsafe_inv (returned info) k w w' endpoint h = (info, refl, h)
  refuse_unsafe_inv (thrown e) k w w' endpoint h = absurd cc

  new_endpoint_inv :
      (url : String) (w w' : World) (endpoint : RegisteredEndpoint)
      → new_endpoint merchant deps url w ≡ (returned endpoint, w')
      → (endpoint.webhook_url ≡ url)
        × (w'.merchants
            ≡ update_where
                (is_merchant merchant.id)
                (set_endpoint merchant deps url
                  (deps.encrypt_webhook_secret endpoint.webhook_secret deps.webhook_encryption_key))
                w.merchants)
  new_endpoint_inv url w w' endpoint h = (cc h, cc h)

  -- A registration that answers has a URL that the guard approves, and stores it with its secret sealed.
  pub register-IsRegistered :
      (url : String) (w w' : World) (endpoint : RegisteredEndpoint)
      → register_webhook_endpoint merchant deps url w ≡ (returned endpoint, w')
      → IsRegistered url w w' endpoint
  unfolding register_webhook_endpoint
  register-IsRegistered url w w' endpoint h =
      let (format, h1) =
        throw_if_inv (λ _. guarded_webhook_url merchant deps url >> new_endpoint merchant deps url)
          (not (is_webhook_url deps.is_url url)) validation_error w h in
      let (info, safe, h2) =
        refuse_unsafe_inv (assert_safe_webhook_url deps.net deps.options (codes url))
          (new_endpoint merchant deps url) w w' endpoint h1 in
      let (same_url, stored) = new_endpoint_inv url w w' endpoint h2 in
      record {
        format = not-false _ format;
        info = info;
        approved = assert_safe_webhook_url-Approved deps.net deps.options (codes url) info safe;
        same_url = same_url;
        stored = stored;
      }
