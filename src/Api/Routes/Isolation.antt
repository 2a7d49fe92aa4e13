-- ===== src/Api/Routes/Isolation.antt =====
-- The part of the store that the reading handlers of apps/api/src/routes may show to one merchant, and the
-- references between its rows.
pub mod Pages
pub mod Lists
pub mod Handlers
pub mod References
pub mod Writing
pub mod Kept
use stellar_journey.Base.{
  ℕ, ◌≡◌, refl, ap, sym, ◌∙◌, String, Bool, true, false, not, ◌&&◌, ◌||◌, Option, none, some, List,
  [], ◌∷◌, map, arith, str_eq, filter_where, find_where, all_where, find_where-kept, found_passes,
  found-all_where, map-agree, Option-cases, inl, inr, truthy, if◌then◌else◌, ltb, ◌==◌,
}
use stellar_journey.Base.Effect.{Result, Run, or_throw, and_then}
use stellar_journey.Store.{
  World, Merchant, Product, Payment, CheckoutSession, RefundRequest, is_product, is_merchant,
  is_session_of, product_of, Job,
}
use stellar_journey.Api.Routes.Listing.{find_many-narrow, all_where-find_many}
use stellar_journey.Api.Routes.Refunds.{is_payment, shown_decimals}

module _ (merchant : Merchant) where
  abbrev mine : String → Bool
  mine merchant_id = str_eq merchant_id merchant.id

  -- The store with the rows of one merchant.
  abbrev pub own : World → World
  own w = record w {
    charge_requests = filter_where (λ row. mine row.merchant_id) w.charge_requests;
    authorizations = filter_where (λ row. mine row.merchant_id) w.authorizations;
    merchants = filter_where (λ row. mine row.id) w.merchants;
    products = filter_where (λ row. mine row.merchant_id) w.products;
    sessions = filter_where (λ row. mine row.merchant_id) w.sessions;
    mandates = filter_where (λ row. mine row.merchant_id) w.mandates;
    payments = filter_where (λ row. mine row.merchant_id) w.payments;
    refund_requests = filter_where (λ row. mine row.merchant_id) w.refund_requests;
    deliveries = filter_where (λ row. mine row.merchant_id) w.deliveries;
  }

  -- What a handler answers on the rows of the merchant, it answers on the whole store.
  abbrev pub AnswersAlone : {A : Type 0} → World → Job A → Type 0
  AnswersAlone w h = (h (own w)).0 ≡ (h w).0

  abbrev pub of_product : Option Product → Bool
  of_product none = false
  of_product (some product) = mine product.merchant_id

  abbrev pub of_payment : Option Payment → Bool
  of_payment none = false
  of_payment (some payment) = mine payment.merchant_id

  abbrev pub session_within : World → CheckoutSession → Bool
  session_within w row =
      not (mine row.merchant_id) || of_product (find_where (is_product row.product_id) w.products)

  abbrev pub refund_within : World → RefundRequest → Bool
  refund_within w row =
      not (mine row.merchant_id) || of_payment (find_where (is_payment row.payment_id) w.payments)

  -- Where the rows of the merchant name rows that are there and its own: a session its product, a refund
  -- its payment.
  unfoldable pub refers_within : World → Bool
  refers_within w =
      all_where (session_within w) w.sessions && all_where (refund_within w) w.refund_requests

  own_product :
      (w : World) (id : String)
      → of_product (find_where (is_product id) w.products) ≡ true
      → find_where (is_product id) (own w).products ≡ find_where (is_product id) w.products
  own_product w id within =
      find_where-kept (is_product id) (λ row. mine row.merchant_id) w.products
        (λ product e. ap of_product (sym e) ∙ within)

  own_payment :
      (w : World) (id : String)
      → of_payment (find_where (is_payment id) w.payments) ≡ true
      → find_where (is_payment id) (own w).payments ≡ find_where (is_payment id) w.payments
  own_payment w id within =
      find_where-kept (is_payment id) (λ row. mine row.merchant_id) w.payments
        (λ payment e. ap of_payment (sym e) ∙ within)

  session-within :
      (w : World) (mandate_id : String) (row : CheckoutSession)
      → refers_within w ≡ true
      → find_where (is_session_of merchant.id mandate_id) w.sessions ≡ some row
      → of_product (find_where (is_product row.product_id) w.products) ≡ true
  unfolding refers_within
  session-within w mandate_id row within e = ground (
    arith,
    found_passes (is_session_of merchant.id mandate_id) w.sessions row e,
    found-all_where (is_session_of merchant.id mandate_id) (session_within w) w.sessions row,
  )

  own_session :
      (w : World) (mandate_id : String)
      → find_where (is_session_of merchant.id mandate_id) (own w).sessions
        ≡ find_where (is_session_of merchant.id mandate_id) w.sessions
  own_session w mandate_id =
      find_where-kept (is_session_of merchant.id mandate_id) (λ row. mine row.merchant_id)
        w.sessions
        (λ row e.
          ground (arith, found_passes (is_session_of merchant.id mandate_id) w.sessions row e))

  pub product_of-own :
      (w : World) (mandate_id : String)
      → refers_within w ≡ true
      → product_of merchant.id mandate_id (own w) ≡ product_of merchant.id mandate_id w
  product_of-own w mandate_id within =
      elim (Option-cases (find_where (is_session_of merchant.id mandate_id) w.sessions)) [
        | inl absent ↦ ground (arith, own_session w mandate_id)
        | inr (row, e) ↦ ground (
          arith,
          own_session w mandate_id,
          own_product w row.product_id (session-within w mandate_id row within e),
        )
      ]

  pub within_sessions :
      (w : World) → refers_within w ≡ true → all_where (session_within w) w.sessions ≡ true
  unfolding refers_within
  within_sessions w within = ground arith

  pub within_refunds :
      (w : World) → refers_within w ≡ true → all_where (refund_within w) w.refund_requests ≡ true
  unfolding refers_within
  within_refunds w within = ground arith

  pub shown_decimals-own :
      (w : World) (row : RefundRequest)
      → refers_within w ≡ true
      → mine row.merchant_id ≡ true
      → refund_within w row ≡ true
      → shown_decimals merchant (own w) row ≡ shown_decimals merchant w row
  shown_decimals-own w row within ours paid =
      let paid_ours : of_payment (find_where (is_payment row.payment_id) w.payments) ≡ true =
        ground arith in
      elim (Option-cases (find_where (is_payment row.payment_id) w.payments)) [
        | inl absent ↦ ground (arith, own_payment w row.payment_id paid_ours)
        | inr (payment, e) ↦ ground (
          arith,
          own_payment w row.payment_id paid_ours,
          product_of-own w payment.mandate_id within,
        )
      ]
