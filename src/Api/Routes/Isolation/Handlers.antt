-- ===== src/Api/Routes/Isolation/Handlers.antt =====
-- Every reading handler of apps/api/src/routes, on the rows of one merchant; here those that show decimals.
use stellar_journey.Base.{
  ℕ, ◌≡◌, refl, ap, ◌∙◌, String, true, ◌&&◌, ◌||◌, Option, map, arith, map-agree, truthy, ltb, ◌==◌,
}
use stellar_journey.Base.Effect.{pure}
use stellar_journey.Store.{World, Merchant, ChargeRequest, Fault, api_error, Job, product_of}
use stellar_journey.Api.Routes.{MandateReader, validation_error, decimals_of}
use stellar_journey.Api.Routes.Listing.{find_many, find_many-narrow, all_where-find_many}
use stellar_journey.Api.Routes.Refunds.{
  is_listed, list_refunds, shown_decimals, or_seven, to_refund_request_response,
}
use stellar_journey.Api.Routes.Payments.{
  list_payments, is_listed_payment, show_payment, to_payment_response,
}
use stellar_journey.Api.Routes.Products.{list_products, get_product}
use stellar_journey.Api.Routes.Checkout.{list_checkout_sessions, get_checkout_session}
use stellar_journey.Api.Routes.Endpoints.{list_webhook_deliveries}
use stellar_journey.Api.Routes.Mandates.{list_mandates}
use stellar_journey.Api.Routes.Charges.{ChargeRequestResponse, to_charge_request_response}
use stellar_journey.Api.Routes.Charges.Reading.{
  list_charges, get_charge, is_own_charge, charges_where, charge_filter, show_charge,
  charge_not_found, of_mandate,
}
use stellar_journey.Api.Routes.Isolation.Lists.{
  is_mine, products-alone, sessions-alone, deliveries-alone, mandates-alone, product-alone,
  session-alone,
}
use stellar_journey.Api.Routes.Isolation.{
  AnswersAlone, own, refers_within, refund_within, within_refunds, shown_decimals-own,
  product_of-own,
}
use stellar_journey.Api.Routes.Isolation.Pages.{
  page-same, page_where-same, from_found, from_found-same, found-same, shown_page,
}

module _ (merchant : Merchant) (w : World) where
  pub record IsIsolated (reader : MandateReader) : Type 0 where
    pub charges :
        (mandate_id status : Option String) (limit : ℕ)
        → AnswersAlone merchant w (list_charges merchant mandate_id status limit)
    pub charge : (id : String) → AnswersAlone merchant w (get_charge merchant id)
    pub payments :
        (mandate_id : Option String) (limit : ℕ)
        → AnswersAlone merchant w (list_payments merchant mandate_id limit)
    pub refunds :
        (payment_id : Option String) (limit : ℕ)
        → AnswersAlone merchant w (list_refunds merchant payment_id limit)
    pub products : (limit : ℕ) → AnswersAlone merchant w (list_products merchant limit)
    pub product : (id : String) → AnswersAlone merchant w (get_product merchant id)
    pub sessions :
        (product_id : Option String) (limit : ℕ)
        → AnswersAlone merchant w (list_checkout_sessions merchant product_id limit)
    pub session : (id : String) → AnswersAlone merchant w (get_checkout_session merchant id)
    pub deliveries :
        (status : Option String) (limit : ℕ)
        → AnswersAlone merchant w (list_webhook_deliveries merchant status limit)
    pub mandates : (limit : ℕ) → AnswersAlone merchant w (list_mandates reader merchant limit)

module _ (merchant : Merchant) (w : World) (within : refers_within merchant w ≡ true) where
  abbrev decimals_shown : World → String → ℕ
  decimals_shown w mandate_id = or_seven (decimals_of (product_of merchant.id mandate_id w))

  decimals-alone :
      (mandate_id : String)
      → decimals_shown (own merchant w) mandate_id ≡ decimals_shown w mandate_id
  decimals-alone mandate_id =
      ap (λ o. or_seven (decimals_of o)) (product_of-own merchant w mandate_id within)

  payments-alone :
      (mandate_id : Option String) (limit : ℕ)
      → AnswersAlone merchant w (list_payments merchant mandate_id limit)
  unfolding list_payments
  payments-alone mandate_id limit =
      page-same w (own merchant w) (limit == 0 || ltb 100 limit) validation_error
        (λ w. map (show_payment merchant w) (
          find_many (λ row. row.created_at) (is_listed_payment merchant mandate_id) limit
            w.payments))
        (shown_page (λ row. row.created_at) (is_listed_payment merchant mandate_id)
          (λ row. is_mine merchant w row.merchant_id) (λ row h. ground arith)
          (show_payment merchant (own merchant w)) (show_payment merchant w) limit w.payments
          (λ row. ap (to_payment_response row) (decimals-alone row.mandate_id)))

  refunds-alone :
      (payment_id : Option String) (limit : ℕ)
      → AnswersAlone merchant w (list_refunds merchant payment_id limit)
  unfolding list_refunds
  refunds-alone payment_id limit =
      page-same w (own merchant w) (limit == 0 || ltb 100 limit) validation_error
        (λ w.
          map (λ row. to_refund_request_response row (shown_decimals merchant w row))
            (find_many (λ row. row.created_at) (is_listed merchant.id payment_id) limit
              w.refund_requests))
        (ap
            (map (λ row.
              to_refund_request_response row (shown_decimals merchant (own merchant w) row)))
            (find_many-narrow (λ row. row.created_at) (is_listed merchant.id payment_id)
              (λ row. is_mine merchant w row.merchant_id) (λ row h. ground arith) limit
              w.refund_requests)
          ∙ map-agree (λ row. is_mine merchant w row.merchant_id && refund_within merchant w row)
              (λ row. to_refund_request_response row (shown_decimals merchant (own merchant w) row))
              (λ row. to_refund_request_response row (shown_decimals merchant w row))
              (find_many (λ row. row.created_at) (is_listed merchant.id payment_id) limit
                w.refund_requests)
              (all_where-find_many (λ row. row.created_at)
                (λ row. is_mine merchant w row.merchant_id && refund_within merchant w row)
                (is_listed merchant.id payment_id) (refund_within merchant w)
                (λ row h paid. ground arith) limit w.refund_requests
                (within_refunds merchant w within))
              (λ row h.
                ap (to_refund_request_response row)
                  (shown_decimals-own merchant w row within (ground arith) (ground arith))))

  abbrev shown_charge : World → ChargeRequest → ChargeRequestResponse
  shown_charge w row = to_charge_request_response row (decimals_shown w row.mandate_id)

  show_charge-alone : (row : ChargeRequest) → AnswersAlone merchant w (show_charge merchant row)
  show_charge-alone row =
      ap (λ o. (from_found (decimals_of o) not_linked (show_with row) (own merchant w)).0)
        (product_of-own merchant w row.mandate_id within)
      ∙ from_found-same w (own merchant w) (decimals_of (product_of merchant.id row.mandate_id w))
          not_linked (show_with row) (λ decimals. refl)
    where
      not_linked : Fault
      not_linked = api_error 404 "MANDATE_NOT_LINKED_TO_PRODUCT"

      show_with : ChargeRequest → ℕ → Job ChargeRequestResponse
      show_with row decimals = pure (to_charge_request_response row decimals)

  charges-alone :
      (mandate_id status : Option String) (limit : ℕ)
      → AnswersAlone merchant w (list_charges merchant mandate_id status limit)
  unfolding list_charges
  charges-alone mandate_id status limit =
      page_where-same w (own merchant w) (limit == 0 || ltb 100 limit) validation_error
        (api_error 400 "INVALID_STATUS_FILTER") (charge_filter status)
        (charges_where merchant mandate_id limit)
        (λ passes.
          shown_page (λ row. row.created_at)
            (λ row.
              is_mine merchant w row.merchant_id
              && of_mandate (truthy mandate_id) row
              && passes row.status)
            (λ row. is_mine merchant w row.merchant_id) (λ row h. ground arith)
            (shown_charge (own merchant w)) (shown_charge w) limit w.charge_requests
            (λ row. ap (to_charge_request_response row) (decimals-alone row.mandate_id)))

  charge-alone : (id : String) → AnswersAlone merchant w (get_charge merchant id)
  unfolding get_charge
  charge-alone id =
      found-same w (own merchant w) (is_own_charge merchant id)
        (λ row. is_mine merchant w row.merchant_id) (λ row h. ground arith) w.charge_requests
        charge_not_found (show_charge merchant) show_charge-alone

-- Where a merchant's sessions name products and its refunds payments that are there and its own,
-- each list and each single read of charges, payments, refunds, products, checkout sessions and
-- deliveries, and the list of mandates, answers as on a store that holds the rows of that
-- merchant only.
pub reads-IsIsolated :
    (reader : MandateReader) (merchant : Merchant) (w : World)
    → refers_within merchant w ≡ true
    → IsIsolated merchant w reader
reads-IsIsolated reader merchant w within = record {
  charges = charges-alone merchant w within;
  charge = charge-alone merchant w within;
  payments = payments-alone merchant w within;
  refunds = refunds-alone merchant w within;
  products = products-alone merchant w;
  product = product-alone merchant w;
  sessions = sessions-alone merchant w;
  session = session-alone merchant w;
  deliveries = deliveries-alone merchant w;
  mandates = mandates-alone merchant w reader;
}
