-- ===== src/Api/Routes/Checkout/Opening.antt =====
-- A checkout session that is created (apps/api/src/routes/checkout-sessions.ts).
use stellar_journey.Base.{
  ℕ, ◌≡◌, ◌∙◌, refl, sym, ap, String, false, not, Option, some, List, ◌∷◌, find_where, subst,
}
use stellar_journey.Base.Effect.{returned, pure, gets, and_then, ◌>>=◌}
use stellar_journey.Base.Effect.Inversion.{and_then_inv, or_throw_inv, throw_if_inv}
use stellar_journey.Store.{Product, Merchant, World}
use stellar_journey.Api.Idempotency.{
  IdempotencyKey, IdempotentHandlerResult, IdempotentOutcome, lift_result, on_store,
}
use stellar_journey.Api.Idempotency.Handled.{run_idempotent_handled}
use stellar_journey.Api.Routes.{require_idempotency_key, validation_error}
use stellar_journey.Api.Routes.Inversion.{lift_inv, key_inv}
use stellar_journey.Api.Routes.Products.{is_product_of, product_not_found}
use stellar_journey.Api.Routes.Checkout.{
  CheckoutDeps, CreateCheckoutSession, matches_schema, ends_at, session_row, new_session,
  check_product, session_checked, session_keyed, create_checkout_session,
}

module _ (merchant : Merchant) (deps : CheckoutDeps) where
  -- The session that an answer of 201 has stored, for a product of the merchant.
  pub record IsOpened (input : CreateCheckoutSession) (w w' : World) (outcome : IdempotentOutcome)
      : Type 0 where
    pub product : Product
    pub found : find_where (is_product_of merchant.id input.product_id) w.products ≡ some product
    pub id : String
    pub stored :
        w'.sessions
        ≡ session_row merchant deps id input product (ends_at deps input product w.clock) w.clock
          ∷ w.sessions
    pub products : w'.products ≡ w.products
    pub payments : w'.payments ≡ w.payments
    pub refunds : w'.refund_requests ≡ w.refund_requests
    pub created : outcome.status ≡ 201

  check_product_inv :
      (input : CreateCheckoutSession) (w w' : World) (c : Product × ℕ)
      → check_product merchant deps input w ≡ (returned c, w')
      → (find_where (is_product_of merchant.id input.product_id) w.products ≡ some c.0)
        × (c.1 ≡ ends_at deps input c.0 w.clock)
        × (w' ≡ w)
  check_product_inv input w w' c h =
      let (product, found, h1) =
        or_throw_inv
          (λ product. gets (λ w. w.clock) >>= λ now. pure (product, ends_at deps input product now))
          (find_where (is_product_of merchant.id input.product_id) w.products) product_not_found w
          h in
      let same : (product, ends_at deps input product w.clock) ≡ c = cc h1 in
      subst
        (λ k.
          (find_where (is_product_of merchant.id input.product_id) w.products ≡ some k.0)
          × (k.1 ≡ ends_at deps input k.0 w.clock)
          × (w' ≡ w))
        same (found, refl, cc h1)

  new_session_inv :
      (input : CreateCheckoutSession) (product : Product) (ends : ℕ) (w w' : World)
      (result : IdempotentHandlerResult)
      → new_session merchant deps input product ends w ≡ (returned result, w')
      → (w'.sessions
          ≡ session_row merchant deps (deps.uuid w.uuids) input product ends w.clock ∷ w.sessions)
        × (w'.products ≡ w.products)
        × (w'.payments ≡ w.payments)
        × (w'.refund_requests ≡ w.refund_requests)
        × (result.status ≡ 201)
  unfolding new_session
  new_session_inv input product ends w w' result h = (cc h, cc h, cc h, cc h, cc h)

  keyed_inv :
      (key hash : String) (input : CreateCheckoutSession) (w w' : World)
      (rows rows' : List IdempotencyKey) (outcome : IdempotentOutcome)
      → and_then
          (session_checked merchant deps key hash input)
          (lift_result rows (check_product merchant deps input w))
        ≡ (returned outcome, (w', rows'))
      → outcome.replayed ≡ false
      → IsOpened input w w' outcome
  keyed_inv key hash input w w' rows rows' outcome h first =
      let (c, v, checks, h1) =
        and_then_inv (session_checked merchant deps key hash input)
          (lift_result rows (check_product merchant deps input w)) h in
      let (checked, same_rows) =
        lift_inv rows v.1 (check_product merchant deps input w) c v.0 checks in
      let (found, ends, same) = check_product_inv input w v.0 c checked in
      let (result, handled, status, body) =
        run_idempotent_handled merchant.id key hash (new_session merchant deps input c.0 c.1) v.0 w'
          v.1 rows' outcome h1 first in
      let (stored, products, payments, refunds, created) =
        new_session_inv input c.0 c.1 v.0 w' result handled in
      record {
        product = c.0;
        found = found;
        id = deps.uuid v.0.uuids;
        stored =
            stored
            ∙ ap
                (λ u.
                  session_row merchant deps (deps.uuid v.0.uuids) input c.0 c.1 u.clock
                  ∷ u.sessions)
                same
            ∙ ap
                (λ e.
                  session_row merchant deps (deps.uuid v.0.uuids) input c.0 e w.clock ∷ w.sessions)
                ends;
        products = products ∙ ap (λ u. u.products) same;
        payments = payments ∙ ap (λ u. u.payments) same;
        refunds = refunds ∙ ap (λ u. u.refund_requests) same;
        created = status ∙ created;
      }

  -- An answer to a creation that is no replay has status 201 and adds one open session, for a product of
  -- the merchant.
  pub create_checkout_session-IsOpened :
      (header : Option String) (hash : String) (input : CreateCheckoutSession) (w w' : World)
      (rows rows' : List IdempotencyKey) (outcome : IdempotentOutcome)
      → create_checkout_session merchant deps header hash input (w, rows)
        ≡ (returned outcome, (w', rows'))
      → outcome.replayed ≡ false
      → IsOpened input w w' outcome
  unfolding create_checkout_session
  create_checkout_session-IsOpened header hash input w w' rows rows' outcome h first =
      let (key, v, keyed, h1) =
        and_then_inv (session_keyed merchant deps hash input)
          (require_idempotency_key header (w, rows)) h in
      let same : v ≡ (w, rows) = key_inv header (w, rows) v key keyed in
      let (is, h2) =
        throw_if_inv
          (λ _.
            on_store (check_product merchant deps input)
            >>= session_checked merchant deps key hash input)
          (not (matches_schema deps input)) validation_error (w, rows)
          (ap (session_keyed merchant deps hash input key) (sym same) ∙ h1) in
      keyed_inv key hash input w w' rows rows' outcome h2 first
