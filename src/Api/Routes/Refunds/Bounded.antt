-- ===== src/Api/Routes/Refunds/Bounded.antt =====
-- An accepted refund (apps/api/src/routes/payments.ts) is within what is left of its payment.
use stellar_journey.Base.{
  ℕ, suc, ◌+◌, ◌≤◌, ◌≡◌, ◌∙◌, sym, ap, subst, String, false, Option, some, List, ◌∷◌, arith,
  find_where, not, ltb,
}
use stellar_journey.Base.Effect.{returned, pure}
use stellar_journey.Base.Effect.Inversion.{and_then_inv, or_throw_inv, throw_if_inv}
use stellar_journey.Shared.Money.{Units, decimal_to_positive_base_units}
use stellar_journey.Store.{Payment, Merchant, World, api_error, rejected, product_of}
use stellar_journey.Api.Idempotency.{
  IdempotencyKey, IdempotentHandlerResult, IdempotentOutcome, lift_result,
}
use stellar_journey.Api.Idempotency.Handled.{run_idempotent_handled}
use stellar_journey.Api.Routes.{
  is_decimal_amount, require_idempotency_key, decimals_of, validation_error,
}
use stellar_journey.Api.Routes.Inversion.{lift_inv, key_inv}
use stellar_journey.Api.Routes.Refunds.{
  RefundDeps, is_payment_of, max, payment_not_found, exceeds_payment, refund_row, new_refund, Check,
  check_total, check_amount, check_decimals, check_payment, check_refund, refund_checked,
  refund_parsed, refund_keyed, create_refund,
}

module _ (deps : RefundDeps) (merchant : Merchant) where
  -- A refund that may be requested.
  pub record IsRefundable (payment_id : String) (decimal : Units) (w : World) (payment : Payment)
      (decimals amount : ℕ) : Type 0 where
    pub found : find_where (is_payment_of merchant.id payment_id) w.payments ≡ some payment
    pub known : decimals_of (product_of merchant.id payment.mandate_id w) ≡ some decimals
    pub parsed : decimal_to_positive_base_units decimal decimals ≡ some amount
    pub on_chain : ℕ
    pub read : deps.reader.get_refunded_total payment.payment_id ≡ some on_chain
    pub within_chain : on_chain + amount ≤ payment.amount
    pub within_store : payment.refunded_total + amount ≤ payment.amount

  check_refund_inv :
      (payment_id : String) (decimal : Units) (w w' : World) (c : Check deps merchant)
      → check_refund deps merchant payment_id decimal w ≡ (returned c, w')
      → IsRefundable payment_id decimal w c.0 c.1 c.2 × (w' ≡ w)
  unfolding check_refund
  check_refund_inv payment_id decimal w w' c h =
      let (payment, found, h1) =
        or_throw_inv (check_payment deps merchant decimal)
          (find_where (is_payment_of merchant.id payment_id) w.payments) payment_not_found w h in
      let (decimals, known, h2) =
        or_throw_inv (check_decimals deps merchant payment decimal)
          (decimals_of (product_of merchant.id payment.mandate_id w))
          (api_error 404 "MANDATE_NOT_LINKED_TO_PRODUCT") w h1 in
      let (amount, parsed, h3) =
        or_throw_inv (check_amount deps merchant payment decimals)
          (decimal_to_positive_base_units decimal decimals) (api_error 400 "INVALID_AMOUNT") w h2 in
      let (on_chain, read, h4) =
        or_throw_inv (check_total deps merchant payment decimals amount)
          (deps.reader.get_refunded_total payment.payment_id) rejected w h3 in
      let (within, h5) =
        throw_if_inv (λ _. pure (payment, decimals, amount))
          (ltb payment.amount (max on_chain payment.refunded_total + amount)) exceeds_payment w
          h4 in
      let same : (payment, decimals, amount) ≡ c = cc h5 in
      (
        subst (λ k. IsRefundable payment_id decimal w k.0 k.1 k.2) same
            (record {
              found = found;
              known = known;
              parsed = parsed;
              on_chain = on_chain;
              read = read;
              within_chain = ground arith;
              within_store = ground arith;
            }),
        cc h5,
      )

  -- The request that an answer of 201 has stored, in a store that held `w`.
  pub record IsRequested (payment_id : String) (decimal : Units) (w w' : World)
      (outcome : IdempotentOutcome) : Type 0 where
    pub payment : Payment
    pub decimals : ℕ
    pub amount : ℕ
    pub refundable : IsRefundable payment_id decimal w payment decimals amount
    pub id : String
    pub refund_id : String
    pub stored :
        w'.refund_requests
        ≡ refund_row deps merchant id refund_id payment amount w.clock ∷ w.refund_requests
    pub payments : w'.payments ≡ w.payments
    pub sessions : w'.sessions ≡ w.sessions
    pub products : w'.products ≡ w.products
    pub created : outcome.status ≡ 201

  new_refund_inv :
      (payment : Payment) (decimals amount : ℕ) (w w' : World) (result : IdempotentHandlerResult)
      → new_refund deps merchant payment decimals amount w ≡ (returned result, w')
      → (w'.refund_requests
          ≡ refund_row deps merchant
              (deps.uuid (suc w.uuids))
              (deps.random_hex_id w.uuids)
              payment
              amount
              w.clock
            ∷ w.refund_requests)
        × (w'.payments ≡ w.payments)
        × (w'.sessions ≡ w.sessions)
        × (w'.products ≡ w.products)
        × (result.status ≡ 201)
  unfolding new_refund
  new_refund_inv payment decimals amount w w' result h = (cc h, cc h, cc h, cc h, cc h)

  parsed_inv :
      (key hash payment_id : String) (decimal : Units) (w w' : World)
      (rows rows' : List IdempotencyKey) (outcome : IdempotentOutcome)
      → refund_parsed deps merchant payment_id decimal hash key (w, rows)
        ≡ (returned outcome, (w', rows'))
      → outcome.replayed ≡ false
      → IsRequested payment_id decimal w w' outcome
  parsed_inv key hash payment_id decimal w w' rows rows' outcome h first =
      let (c, v, checks, h1) =
        and_then_inv (refund_checked deps merchant key hash)
          (lift_result rows (check_refund deps merchant payment_id decimal w)) h in
      let (checked, same_rows) =
        lift_inv rows v.1 (check_refund deps merchant payment_id decimal w) c v.0 checks in
      let (refundable, same) = check_refund_inv payment_id decimal w v.0 c checked in
      let (result, handled, status, body) =
        run_idempotent_handled merchant.id key hash (new_refund deps merchant c.0 c.1 c.2) v.0 w'
          v.1 rows' outcome h1 first in
      let (stored, payments, sessions, products, created) =
        new_refund_inv c.0 c.1 c.2 v.0 w' result handled in
      record {
        payment = c.0;
        decimals = c.1;
        amount = c.2;
        refundable = refundable;
        id = deps.uuid (suc v.0.uuids);
        refund_id = deps.random_hex_id v.0.uuids;
        stored =
            stored
            ∙ ap
                (λ u.
                  refund_row deps merchant (deps.uuid (suc v.0.uuids))
                    (deps.random_hex_id v.0.uuids) c.0 c.2 u.clock
                  ∷ u.refund_requests)
                same;
        payments = payments ∙ ap (λ u. u.payments) same;
        sessions = sessions ∙ ap (λ u. u.sessions) same;
        products = products ∙ ap (λ u. u.products) same;
        created = status ∙ created;
      }

  -- An answer to a refund that is no replay has status 201 and adds one scheduled request of the
  -- parsed amount, for a payment of this merchant; the amount, with what the chain says is
  -- refunded and with what the store says, is at most the payment.
  pub create_refund-IsRequested :
      (header : Option String) (hash payment_id : String) (decimal : Units) (w w' : World)
      (rows rows' : List IdempotencyKey) (outcome : IdempotentOutcome)
      → create_refund deps merchant header hash payment_id decimal (w, rows)
        ≡ (returned outcome, (w', rows'))
      → outcome.replayed ≡ false
      → IsRequested payment_id decimal w w' outcome
  unfolding create_refund
  create_refund-IsRequested header hash payment_id decimal w w' rows rows' outcome h first =
      let (key, v, keyed, h1) =
        and_then_inv (refund_keyed deps merchant payment_id decimal hash)
          (require_idempotency_key header (w, rows)) h in
      let same : v ≡ (w, rows) = key_inv header (w, rows) v key keyed in
      let (is, h2) =
        throw_if_inv (λ _. refund_parsed deps merchant payment_id decimal hash key)
          (not (is_decimal_amount decimal)) validation_error (w, rows)
          (ap (refund_keyed deps merchant payment_id decimal hash key) (sym same) ∙ h1) in
      parsed_inv key hash payment_id decimal w w' rows rows' outcome h2 first
