-- ===== src/Api/Routes/Isolation/Lists.antt =====
-- The handlers of apps/api/src/routes that read products, checkout sessions, deliveries and mandates, on
-- the rows of one merchant.
use stellar_journey.Base.{
  ℕ, ◌≡◌, refl, ap, ◌∙◌, String, Bool, ◌&&◌, ◌||◌, Option, none, some, List, map, arith, str_eq,
  find_where-kept, found_passes, Bool-cases, inl, inr, ltb, ◌==◌,
}
use stellar_journey.Base.Effect.{Result, pure, or_throw}
use stellar_journey.Store.{World, Merchant, MandateRow, Fault, api_error, rejected}
use stellar_journey.Api.Routes.{MandateReader, validation_error}
use stellar_journey.Api.Routes.Listing.{find_many, find_many-narrow}
use stellar_journey.Api.Routes.Products.{
  list_products, get_product, is_product_of, to_product_response, product_not_found,
}
use stellar_journey.Api.Routes.Checkout.{
  list_checkout_sessions, get_checkout_session, is_listed_session, is_own_session,
}
use stellar_journey.Api.Routes.Endpoints.{
  list_webhook_deliveries, status_filter, deliveries_where, to_webhook_delivery_response,
}
use stellar_journey.Api.Routes.Mandates.{
  list_mandates, listed_mandates, log_reads, read_page, ListedMandate,
}
use stellar_journey.Api.Routes.Isolation.{AnswersAlone, own}
use stellar_journey.Api.Routes.Isolation.Pages.{page-same, page_where-same, found-same, shown_page}

-- What the reads of a page answer does not depend on the store.
read_page-same :
    (reader : MandateReader) (rows : List MandateRow) (w w' : World)
    → (read_page reader rows w').0 ≡ (read_page reader rows w).0
read_page-same reader rows w w' = of_rows (listed_mandates reader rows)
  where
    of_rows :
        (o : Option (List ListedMandate))
        → ◌≡◌ {A = Result Fault (List ListedMandate)}
            (or_throw o rejected (log_reads rows w')).0
            (or_throw o rejected (log_reads rows w)).0
    of_rows none = refl
    of_rows (some listed) = refl

module _ (merchant : Merchant) (w : World) where
  abbrev pub is_mine : String → Bool
  is_mine merchant_id = str_eq merchant_id merchant.id

  pub products-alone : (limit : ℕ) → AnswersAlone merchant w (list_products merchant limit)
  unfolding list_products
  products-alone limit =
      page-same w (own merchant w) (limit == 0 || ltb 100 limit) validation_error
        (λ w.
          map to_product_response
            (find_many (λ row. row.created_at) (λ row. is_mine row.merchant_id) limit w.products))
        (shown_page (λ row. row.created_at) (λ row. is_mine row.merchant_id)
          (λ row. is_mine row.merchant_id) (λ row h. h) to_product_response to_product_response
          limit w.products (λ row. refl))

  pub sessions-alone :
      (product_id : Option String) (limit : ℕ)
      → AnswersAlone merchant w (list_checkout_sessions merchant product_id limit)
  unfolding list_checkout_sessions
  sessions-alone product_id limit =
      page-same w (own merchant w) (limit == 0 || ltb 100 limit) validation_error
        (λ w.
          find_many (λ row. row.created_at) (is_listed_session merchant product_id) limit
            w.sessions)
        (find_many-narrow (λ row. row.created_at) (is_listed_session merchant product_id)
          (λ row. is_mine row.merchant_id) (λ row h. ground arith) limit w.sessions)

  pub deliveries-alone :
      (status : Option String) (limit : ℕ)
      → AnswersAlone merchant w (list_webhook_deliveries merchant status limit)
  unfolding list_webhook_deliveries
  deliveries-alone status limit =
      page_where-same w (own merchant w) (limit == 0 || ltb 100 limit) validation_error
        (api_error 400 "INVALID_STATUS_FILTER") (status_filter status)
        (deliveries_where merchant limit)
        (λ passes.
          shown_page (λ row. row.created_at) (λ row. is_mine row.merchant_id && passes row.status)
            (λ row. is_mine row.merchant_id) (λ row h. ground arith) to_webhook_delivery_response
            to_webhook_delivery_response limit w.deliveries (λ row. refl))

  pub mandates-alone :
      (reader : MandateReader) (limit : ℕ)
      → AnswersAlone merchant w (list_mandates reader merchant limit)
  unfolding list_mandates
  mandates-alone reader limit = elim (Bool-cases (limit == 0 || ltb 50 limit)) [
    | inl refused ↦ ground arith
    | inr fits ↦ rw fits (
        ap (λ rows. (read_page reader rows (own merchant w)).0)
          (find_many-narrow (λ row. row.created_at) (λ row. is_mine row.merchant_id)
            (λ row. is_mine row.merchant_id) (λ row h. h) limit w.mandates)
        ∙ read_page-same reader
            (find_many (λ row. row.created_at) (λ row. is_mine row.merchant_id) limit w.mandates) w
            (own merchant w))
  ]

  pub product-alone : (id : String) → AnswersAlone merchant w (get_product merchant id)
  unfolding get_product
  product-alone id =
      found-same w (own merchant w) (is_product_of merchant.id id) (λ row. is_mine row.merchant_id)
        (λ row h. ground arith) w.products product_not_found
        (λ product. pure (to_product_response product)) (λ product. refl)

  pub session-alone : (id : String) → AnswersAlone merchant w (get_checkout_session merchant id)
  unfolding get_checkout_session
  session-alone id = ground (
    arith,
    find_where-kept (is_own_session merchant.id id) (λ row. is_mine row.merchant_id) w.sessions
        (λ row e. ground (arith, found_passes (is_own_session merchant.id id) w.sessions row e)),
  )
