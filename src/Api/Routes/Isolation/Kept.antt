-- ===== src/Api/Routes/Isolation/Kept.antt =====
-- Sequences of writes of apps/api/src/routes and of the relayer's payments, by whatever merchants, and the
-- references between rows.
use stellar_journey.Base.{
  ℕ, ◌≡◌, inl, inr, sym, subst, String, false, Option, none, List, find_where,
}
use stellar_journey.Base.Effect.{returned}
use stellar_journey.Shared.Money.{Units}
use stellar_journey.Store.{World, Merchant, Payment, CheckoutSession, is_product}
use stellar_journey.Api.Idempotency.{IdempotencyKey, IdempotentOutcome}
use stellar_journey.Api.Routes.Refunds.{RefundDeps, create_refund}
use stellar_journey.Api.Routes.Refunds.Bounded.{create_refund-IsRequested}
use stellar_journey.Api.Routes.Products.{
  CreateProduct, ProductDeps, ProductResponse, create_product,
}
use stellar_journey.Api.Routes.Products.Created.{create_product-IsCreated}
use stellar_journey.Api.Routes.Checkout.{
  CheckoutDeps, CreateCheckoutSession, LinkMandate, create_checkout_session, link_mandate,
}
use stellar_journey.Api.Routes.Checkout.Opening.{create_checkout_session-IsOpened}
use stellar_journey.Api.Routes.Checkout.Linking.{link_mandate_lem}
use stellar_journey.Relayer.Pipeline.Writes.{create_payment}
use stellar_journey.Api.Routes.Isolation.Writing.{
  HasReferences, old_sessions, old_refunds, rows-HasReferences, created-HasReferences,
  opened-HasReferences, linked-HasReferences, refunded-HasReferences, paid-HasReferences,
}

-- A write that has answered, by any merchant; or one that is elsewhere.
pub data Write (w w' : World) : Type 0 where
  creates_product :
      (by : Merchant) (deps : ProductDeps) (input : CreateProduct) (response : ProductResponse)
      → find_where (is_product (deps.uuid w.uuids)) w.products ≡ none
      → create_product by deps input w ≡ (returned response, w')
      → Write w w'
  opens_session :
      (by : Merchant) (deps : CheckoutDeps) (header : Option String) (hash : String)
      (input : CreateCheckoutSession) (rows rows' : List IdempotencyKey)
      (outcome : IdempotentOutcome)
      → create_checkout_session by deps header hash input (w, rows)
        ≡ (returned outcome, (w', rows'))
      → outcome.replayed ≡ false
      → Write w w'
  links_mandate :
      (deps : CheckoutDeps) (input : LinkMandate) (id : String) (session : CheckoutSession)
      → link_mandate deps input id w ≡ (returned session, w')
      → Write w w'
  requests_refund :
      (by : Merchant) (deps : RefundDeps) (header : Option String) (hash payment_id : String)
      (decimal : Units) (rows rows' : List IdempotencyKey) (outcome : IdempotentOutcome)
      → create_refund deps by header hash payment_id decimal (w, rows)
        ≡ (returned outcome, (w', rows'))
      → outcome.replayed ≡ false
      → Write w w'
  records_payment :
      (payment : ℕ → Payment) → create_payment payment w ≡ (returned tt, w') → Write w w'
  elsewhere :
      w'.products ≡ w.products
      → w'.sessions ≡ w.sessions
      → w'.payments ≡ w.payments
      → w'.refund_requests ≡ w.refund_requests
      → Write w w'

Write-HasReferences :
    (merchant : Merchant) (w w' : World)
    → HasReferences merchant w
    → Write w w'
    → HasReferences merchant w'
Write-HasReferences merchant w w' holds (creates_product by deps input response fresh h) =
    created-HasReferences merchant w w' holds by deps input response fresh
      (create_product-IsCreated by deps input w w' response h)
Write-HasReferences merchant w w' holds
      (opens_session by deps header hash input rows rows' outcome h first) =
    opened-HasReferences merchant w w' holds by deps input outcome
      (create_checkout_session-IsOpened by deps header hash input w w' rows rows' outcome h first)
Write-HasReferences merchant w w' holds (links_mandate deps input id session h) =
    let (found, is, how) = link_mandate_lem deps input id w w' session h in
    elim how [
      | inl (linked, answered, same) ↦ subst (HasReferences merchant) (sym same) holds
      | inr linked ↦ linked-HasReferences merchant w w' holds deps input found session linked
    ]
Write-HasReferences merchant w w' holds
      (requests_refund by deps header hash payment_id decimal rows rows' outcome h first) =
    refunded-HasReferences merchant w w' holds by deps payment_id decimal outcome (
      create_refund-IsRequested deps by header hash payment_id decimal w w' rows rows' outcome h
        first)
Write-HasReferences merchant w w' holds (records_payment payment h) =
    paid-HasReferences merchant w w' holds payment h
Write-HasReferences merchant w w' holds (elsewhere products sessions payments refunds) =
    rows-HasReferences merchant w w' holds products payments
      (old_sessions merchant w w' holds sessions) (old_refunds merchant w w' holds refunds)

pub data Writes (w : World) : World → Type 0 where
  none_yet : Writes w w
  next : {v u : World} → Writes w v → Write v u → Writes w u

-- Where the references of a merchant hold (its sessions name products and its refunds payments
-- that are there and its own) and the ids of products and of payments are unique, the same holds
-- after every sequence of writes that answer, by whatever merchants: creations of products with
-- new ids, of checkout sessions and of refunds, links of mandates and records of payments, and of
-- steps that write none of these tables.
pub Writes-HasReferences :
    (merchant : Merchant) (w w' : World)
    → HasReferences merchant w
    → Writes w w'
    → HasReferences merchant w'
Writes-HasReferences merchant w w' holds none_yet = holds
Writes-HasReferences merchant w w' holds (next {v} {u} before now) =
    Write-HasReferences merchant v u (Writes-HasReferences merchant w v holds before) now
