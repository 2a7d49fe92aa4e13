-- ===== src/Api/Routes/Isolation/Writing.antt =====
-- One write of apps/api/src/routes, or of a payment by the relayer, and the references between rows.
use stellar_journey.Base.{
  ℕ, ◌≤◌, ◌≡◌, ◌∙◌, refl, sym, ap, subst, String, true, not, none, ◌∷◌, arith, ◌==◌, find_where,
  count_where, all_where, all_where-update, all_where-added, count_where-le, none_of_count_where,
}
use stellar_journey.Base.Effect.{returned, modify}
use stellar_journey.Base.Effect.Inversion.{throw_if_inv}
use stellar_journey.Shared.Money.{Units}
use stellar_journey.Store.{World, Merchant, Payment, CheckoutSession, is_product, database_error}
use stellar_journey.Api.Idempotency.{IdempotentOutcome}
use stellar_journey.Api.Routes.Refunds.{is_payment, RefundDeps, refund_row}
use stellar_journey.Api.Routes.Refunds.Bounded.{IsRequested}
use stellar_journey.Api.Routes.Products.{CreateProduct, ProductDeps, ProductResponse}
use stellar_journey.Api.Routes.Products.Created.{IsCreated}
use stellar_journey.Api.Routes.Checkout.{
  CheckoutDeps, CreateCheckoutSession, LinkMandate, Included, link_session, is_session, session_row,
  ends_at,
}
use stellar_journey.Api.Routes.Checkout.Opening.{IsOpened}
use stellar_journey.Api.Routes.Checkout.Linking.{IsLinked}
use stellar_journey.Relayer.Pipeline.Writes.{create_payment, clashes}
use stellar_journey.Api.Routes.Isolation.{
  refers_within, session_within, refund_within, within_sessions, within_refunds,
}
use stellar_journey.Api.Routes.Isolation.References.{
  Extends, refers_within-extended, found_within, find_where-added, count_where-added,
}

-- The references of a merchant hold, and the ids of products and of payments are unique.
pub record HasReferences (merchant : Merchant) (w : World) : Type 0 where
  pub within : refers_within merchant w ≡ true
  pub product_ids : (id : String) → count_where (is_product id) w.products ≤ 1
  pub payment_ids : (id : String) → count_where (is_payment id) w.payments ≤ 1

module _ (merchant : Merchant) (w w' : World) (holds : HasReferences merchant w) where
  pub old_sessions :
      w'.sessions ≡ w.sessions → all_where (session_within merchant w) w'.sessions ≡ true
  old_sessions same =
      ap (all_where (session_within merchant w)) same ∙ within_sessions merchant w holds.within

  pub old_refunds :
      w'.refund_requests ≡ w.refund_requests
      → all_where (refund_within merchant w) w'.refund_requests ≡ true
  old_refunds same =
      ap (all_where (refund_within merchant w)) same ∙ within_refunds merchant w holds.within

  same-Extends : w'.products ≡ w.products → w'.payments ≡ w.payments → Extends w w'
  same-Extends products payments = record {
    products = λ id product e. ap (find_where (is_product id)) products ∙ e;
    payments = λ id payment e. ap (find_where (is_payment id)) payments ∙ e;
  }

  -- A write that adds no product and no payment keeps the references, if it does of its own rows.
  pub rows-HasReferences :
      w'.products ≡ w.products
      → w'.payments ≡ w.payments
      → all_where (session_within merchant w) w'.sessions ≡ true
      → all_where (refund_within merchant w) w'.refund_requests ≡ true
      → HasReferences merchant w'
  rows-HasReferences products payments sessions requests = record {
    within =
        refers_within-extended merchant w w' (same-Extends products payments) sessions requests;
    product_ids = λ id.
        subst (λ rows. count_where (is_product id) rows ≤ 1) (sym products) (holds.product_ids id);
    payment_ids = λ id.
        subst (λ rows. count_where (is_payment id) rows ≤ 1) (sym payments) (holds.payment_ids id);
  }

  pub created-HasReferences :
      (by : Merchant) (deps : ProductDeps) (input : CreateProduct) (response : ProductResponse)
      → find_where (is_product (deps.uuid w.uuids)) w.products ≡ none
      → IsCreated by deps input w w' response
      → HasReferences merchant w'
  created-HasReferences by deps input response fresh c =
      let fresh_id : find_where (is_product c.product.id) w.products ≡ none =
        subst (λ product. find_where (is_product product.id) w.products ≡ none) (sym c.as_asked)
          fresh in
      record {
        within =
            refers_within-extended merchant w w'
              (record {
                products = λ id product e.
                    ap (find_where (is_product id)) c.stored
                    ∙ find_where-added (λ row. row.id) c.product w.products id fresh_id product e;
                payments = λ id payment e. ap (find_where (is_payment id)) c.payments ∙ e;
              })
              (old_sessions c.sessions) (old_refunds c.refunds);
        product_ids = λ id.
            subst (λ rows. count_where (is_product id) rows ≤ 1) (sym c.stored)
              (count_where-added (λ row. row.id) c.product w.products fresh_id holds.product_ids
                id);
        payment_ids = λ id.
            subst (λ rows. count_where (is_payment id) rows ≤ 1) (sym c.payments)
              (holds.payment_ids id);
      }

  pub opened-HasReferences :
      (by : Merchant) (deps : CheckoutDeps) (input : CreateCheckoutSession)
      (outcome : IdempotentOutcome)
      → IsOpened by deps input w w' outcome
      → HasReferences merchant w'
  opened-HasReferences by deps input outcome o =
      let (there, within) =
        found_within (λ row. row.id) (λ row. row.merchant_id) by.id merchant.id input.product_id
          w.products o.product (holds.product_ids input.product_id) o.found in
      rows-HasReferences o.products o.payments
        (ap (all_where (session_within merchant w)) o.stored
          ∙ all_where-added (session_within merchant w)
              (session_row by deps o.id input o.product (ends_at deps input o.product w.clock)
                w.clock)
              w.sessions (rw there within) (within_sessions merchant w holds.within))
        (old_refunds o.refunds)

  pub linked-HasReferences :
      (deps : CheckoutDeps) (input : LinkMandate) (found : Included) (session : CheckoutSession)
      → IsLinked deps input found w w' session
      → HasReferences merchant w'
  linked-HasReferences deps input found session l =
      rows-HasReferences l.products l.payments
        (ap (all_where (session_within merchant w)) l.stored
          ∙ all_where-update (session_within merchant w) (is_session found.session.id)
              (link_session input) (λ row. refl) w.sessions
          ∙ within_sessions merchant w holds.within)
        (old_refunds l.refunds)

  pub refunded-HasReferences :
      (by : Merchant) (deps : RefundDeps) (payment_id : String) (decimal : Units)
      (outcome : IdempotentOutcome)
      → IsRequested deps by payment_id decimal w w' outcome
      → HasReferences merchant w'
  refunded-HasReferences by deps payment_id decimal outcome r =
      let (there, within) =
        found_within (λ row. row.payment_id) (λ row. row.merchant_id) by.id merchant.id payment_id
          w.payments r.payment (holds.payment_ids payment_id) r.refundable.found in
      rows-HasReferences r.products r.payments (old_sessions r.sessions) (
        ap (all_where (refund_within merchant w)) r.stored
        ∙ all_where-added (refund_within merchant w)
            (refund_row deps by r.id r.refund_id r.payment r.amount w.clock) w.refund_requests
            (rw there within) (within_refunds merchant w holds.within))

  pub paid-HasReferences :
      (payment : ℕ → Payment)
      → create_payment payment w ≡ (returned tt, w')
      → HasReferences merchant w'
  unfolding create_payment
  paid-HasReferences payment h =
      let paid = payment w.clock in
      let (is, end) =
        throw_if_inv (λ _. modify (λ w. record w { payments = payment w.clock ∷ w.payments }))
          (not (count_where (clashes paid) w.payments == 0)) (database_error "P2002") w h in
      let fresh : find_where (is_payment paid.payment_id) w.payments ≡ none =
        none_of_count_where (is_payment paid.payment_id) w.payments (
          ground (
            arith,
            count_where-le (is_payment paid.payment_id) (clashes paid) (λ row h. ground arith)
                w.payments,
          )) in
      let stored : w'.payments ≡ paid ∷ w.payments = cc end in
      let products : w'.products ≡ w.products = cc end in
      record {
        within =
            refers_within-extended merchant w w'
              (record {
                products = λ id product e. ap (find_where (is_product id)) products ∙ e;
                payments = λ id payment e.
                    ap (find_where (is_payment id)) stored
                    ∙ find_where-added (λ row. row.payment_id) paid w.payments id fresh payment e;
              })
              (old_sessions (cc end)) (old_refunds (cc end));
        product_ids = λ id.
            subst (λ rows. count_where (is_product id) rows ≤ 1) (sym products)
              (holds.product_ids id);
        payment_ids = λ id.
            subst (λ rows. count_where (is_payment id) rows ≤ 1) (sym stored)
              (count_where-added (λ row. row.payment_id) paid w.payments fresh holds.payment_ids
                id);
      }
