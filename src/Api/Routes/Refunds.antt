-- ===== src/Api/Routes/Refunds.antt =====
-- apps/api/src/routes/payments.ts: a refund of a payment is requested, and the requests are listed.
pub mod Bounded
use stellar_journey.Base.{
  ℕ, ◌+◌, String, Bool, true, false, not, ◌&&◌, ◌||◌, Option, none, some, List, [], ◌∷◌, map,
  str_eq, leb, ltb, ◌==◌, find_where, count_where, truthy, if◌then◌else◌,
}
use stellar_journey.Base.Effect.{
  pure, throw, gets, or_throw, ◌>>=◌, ◌>>◌, modify, throw_if, Result, returned, thrown, and_then,
}
use stellar_journey.Shared.Money.{Units, base_units_to_decimal_string}
use stellar_journey.Store.{
  RefundRequest, Payment, Product, World, Fault, api_error, rejected, Job, Merchant, product_of,
}
use stellar_journey.Api.ChargeStatus.{ChargeRequestStatus, scheduled}
use stellar_journey.Api.Idempotency.{
  IdempotentHandlerResult, IdempotentOutcome, on_store, run_idempotent,
}
use stellar_journey.Api.Routes.{
  MandateReader, Route, validation_error, is_decimal_amount, require_idempotency_key, decimals_of,
  resolve_asset_decimals_for_mandate, positive_amount, fresh,
}
use stellar_journey.Api.Routes.Listing.{find_many}

pub record RefundRequestResponse : Type 0 where
  pub id : String
  pub payment_id : String
  pub refund_id : String
  pub amount : Units
  pub status : ChargeRequestStatus
  pub transaction_hash : Option String
  pub created_at : ℕ

abbrev pub to_refund_request_response : RefundRequest → ℕ → RefundRequestResponse
to_refund_request_response row decimals = record {
  id = row.id;
  payment_id = row.payment_id;
  refund_id = row.refund_id;
  amount = base_units_to_decimal_string row.amount decimals;
  status = row.status;
  transaction_hash = row.transaction_hash;
  created_at = row.created_at;
}

pub record RefundDeps : Type 0 where
  pub reader : MandateReader
  -- `randomHexId32` and the database's `uuid()`.
  pub random_hex_id : ℕ → String
  pub uuid : ℕ → String
  pub print : RefundRequestResponse → String

abbrev pub is_payment : String → Payment → Bool
is_payment id row = str_eq row.payment_id id

abbrev pub is_payment_of : String → String → Payment → Bool
is_payment_of merchant_id id row = is_payment id row && str_eq row.merchant_id merchant_id

-- The filter of a query parameter that may be left out, or empty.
abbrev pub matches : Option String → String → Bool
matches none value = true
matches (some wanted) value = str_eq value wanted

abbrev pub is_listed : String → Option String → RefundRequest → Bool
is_listed merchant_id payment_id row =
    str_eq row.merchant_id merchant_id && matches (truthy payment_id) row.payment_id

abbrev pub or_seven : Option ℕ → ℕ
or_seven none = 7
or_seven (some decimals) = decimals

abbrev pub max : ℕ → ℕ → ℕ
max a b = if ltb b a then a else b

abbrev pub add_refund : RefundRequest → World → World
add_refund row w = record w { refund_requests = row ∷ w.refund_requests }

abbrev pub payment_not_found : Fault
payment_not_found = api_error 404 "PaymentNotFound"

abbrev pub exceeds_payment : Fault
exceeds_payment = api_error 422 "RefundExceedsPayment"

module _ (merchant : Merchant) where
  -- The decimals with which a row is shown: 7 where its payment, or that payment's product, is not known.
  abbrev pub shown_decimals : World → RefundRequest → ℕ
  shown_decimals w row = of_payment (find_where (is_payment row.payment_id) w.payments)
    where
      of_payment : Option Payment → ℕ
      of_payment none = 7
      of_payment (some payment) =
          or_seven (decimals_of (product_of merchant.id payment.mandate_id w))

  unfoldable pub list_refunds : Option String → ℕ → Job (List RefundRequestResponse)
  list_refunds payment_id limit =
      if limit == 0 || ltb 100 limit
      then throw validation_error
      else gets (λ w.
        map (λ row. to_refund_request_response row (shown_decimals w row))
          (find_many (λ row. row.created_at) (is_listed merchant.id payment_id) limit
            w.refund_requests))

module _ (deps : RefundDeps) (merchant : Merchant) where
  abbrev pub refund_row : String → String → Payment → ℕ → ℕ → RefundRequest
  refund_row id refund_id payment amount clock = record {
    id = id;
    merchant_id = merchant.id;
    payment_id = payment.payment_id;
    refund_id = refund_id;
    amount = amount;
    status = scheduled;
    transaction_hash = none;
    created_at = clock;
  }

  -- The handler under the idempotency key.
  unfoldable pub new_refund : Payment → ℕ → ℕ → Job IdempotentHandlerResult
  new_refund payment decimals amount = do
    refund_id ← fresh deps.random_hex_id
    id ← fresh deps.uuid
    clock ← gets (λ w. w.clock)
    let row = refund_row id refund_id payment amount clock
    modify (add_refund row)
    pure (record { status = 201; body = deps.print (to_refund_request_response row decimals) })

  -- The checks, from the last to the first: the payment, its decimals and the amount.
  abbrev pub Check : Type 0
  Check = Payment × ℕ × ℕ

  abbrev pub check_total : Payment → ℕ → ℕ → ℕ → Job Check
  check_total payment decimals amount on_chain = do
    throw_if (ltb payment.amount (max on_chain payment.refunded_total + amount)) exceeds_payment
    pure (payment, decimals, amount)

  abbrev pub check_amount : Payment → ℕ → ℕ → Job Check
  check_amount payment decimals amount = do
    on_chain ← or_throw (deps.reader.get_refunded_total payment.payment_id) rejected
    check_total payment decimals amount on_chain

  abbrev pub check_decimals : Payment → Units → ℕ → Job Check
  check_decimals payment decimal decimals = do
    amount ← positive_amount decimal decimals
    check_amount payment decimals amount

  abbrev pub check_payment : Units → Payment → Job Check
  check_payment decimal payment = do
    decimals ← resolve_asset_decimals_for_mandate merchant.id payment.mandate_id
    check_decimals payment decimal decimals

  unfoldable pub check_refund : String → Units → Job Check
  check_refund payment_id decimal = do
    found ← gets (λ w. find_where (is_payment_of merchant.id payment_id) w.payments)
    payment ← or_throw found payment_not_found
    check_payment decimal payment

  abbrev pub refund_checked : String → String → Check → Route IdempotentOutcome
  refund_checked key request_hash (payment, decimals, amount) =
      run_idempotent merchant.id key request_hash (new_refund payment decimals amount)

  abbrev pub refund_parsed : String → Units → String → String → Route IdempotentOutcome
  refund_parsed payment_id decimal request_hash key = do
    check ← on_store (check_refund payment_id decimal)
    refund_checked key request_hash check

  abbrev pub refund_keyed : String → Units → String → String → Route IdempotentOutcome
  refund_keyed payment_id decimal request_hash key = do
    throw_if (not (is_decimal_amount decimal)) validation_error
    refund_parsed payment_id decimal request_hash key

  unfoldable pub create_refund : Option String → String → String → Units → Route IdempotentOutcome
  create_refund header request_hash payment_id decimal = do
    key ← require_idempotency_key header
    refund_keyed payment_id decimal request_hash key
