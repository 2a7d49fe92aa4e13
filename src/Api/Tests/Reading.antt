-- ===== src/Api/Tests/Reading.antt =====
-- The reading handlers (apps/api/src/routes) on a store of two merchants.
use stellar_journey.Base.{
  ℕ, ◌≡◌, refl, String, Bool, true, false, Option, none, some, List, [], ◌∷◌, codes, find_where,
  all_where, if◌then◌else◌, count_where, arith,
}
use stellar_journey.Base.Effect.{returned, thrown}
use stellar_journey.Stellar.Tests.{some_id}
use stellar_journey.Store.{
  Product, fixed_amount, CheckoutSession, Payment, RefundRequest, MandateRow, World, is_product,
}
use stellar_journey.Api.ChargeStatus.{scheduled}
use stellar_journey.Api.Routes.{
  MandateReader, mandate_read_error, mandate_unavailable, MandateAnswer,
}
use stellar_journey.Api.Routes.Payments.{list_payments, to_payment_response}
use stellar_journey.Api.Routes.Mandates.{list_mandates, cached}
use stellar_journey.Api.Routes.Isolation.{refers_within}
use stellar_journey.Api.Routes.Isolation.Handlers.{IsIsolated, reads-IsIsolated}
use stellar_journey.Api.Routes.Isolation.Writing.{HasReferences}
use stellar_journey.Api.Routes.Isolation.Kept.{
  Writes, none_yet, next, requests_refund, creates_product, Writes-HasReferences,
}
use stellar_journey.Api.Routes.Products.{product_row, create_product, to_product_response}
use stellar_journey.Api.Tests.Routes.{
  world as paid_world, refund_deps, refunded, created, refunds, product_deps, new_plan, plan,
}
use stellar_journey.Api.Tests.Charging.{charge_deps, merchant, session, world as charged_world}

abbrev payment_in : String → String → ℕ → Payment
payment_in id merchant_id created_at = record {
  payment_id = id;
  merchant_id = merchant_id;
  mandate_id = some_id;
  charge_id = "charge";
  charge_request_id = id;
  amount = 500;
  asset_address = "usdc";
  transaction_hash = "hash";
  ledger = 7;
  refunded_total = 200;
  created_at = created_at;
}

abbrev refund_in : String → String → String → RefundRequest
refund_in id merchant_id payment_id = record {
  id = id;
  merchant_id = merchant_id;
  payment_id = payment_id;
  refund_id = id;
  amount = 200;
  status = scheduled;
  transaction_hash = none;
  created_at = 6;
}

abbrev indexed : MandateRow
indexed = record {
  mandate_id = some_id;
  merchant_id = "shop";
  payer_address = "payer";
  merchant_address = "wallet";
  asset_address = "usdc";
  status = "Active";
  contract_state_version = 0;
  last_indexed_ledger = none;
  last_indexed_at = some 3;
  created_at = 2;
}

-- The rows of a merchant, between those of another.
abbrev two_merchants : World
two_merchants = record charged_world {
  mandates = indexed ∷ [];
  sessions = record session { id = "s2"; merchant_id = "other"; product_id = "p9" } ∷ session ∷ [];
  payments =
      payment_in "pay2" "other" 8 ∷ payment_in "pay1" "shop" 5 ∷ payment_in "pay3" "shop" 9 ∷ [];
  refund_requests = refund_in "r2" "other" "pay2" ∷ refund_in "r1" "shop" "pay1" ∷ [];
}

refers : refers_within merchant two_merchants ≡ true
unfolding refers_within all_where find_where
refers = refl

reads-IsIsolated_example : IsIsolated merchant two_merchants charge_deps.reader
reads-IsIsolated_example = reads-IsIsolated charge_deps.reader merchant two_merchants refers

-- The newest payment first, and none of the other merchant's.
lists_payments :
    (list_payments merchant none 20 two_merchants).0
    ≡ returned (
        to_payment_response (payment_in "pay3" "shop" 9) 2
        ∷ to_payment_response (payment_in "pay1" "shop" 5) 2
        ∷ [])
unfolding list_payments find_where stellar_journey.Base.filter_where
    stellar_journey.Api.Routes.Listing.find_many
lists_payments = refl

abbrev answering : MandateAnswer → MandateReader
answering answer = record charge_deps.reader { get_mandate = λ id. answer }

-- A row whose read fails is shown from the index; an error of another kind is thrown.
lists_cached :
    (list_mandates (answering mandate_read_error) merchant 25 two_merchants).0
    ≡ returned (cached some_id "Active" (some 3) ∷ [])
unfolding list_mandates stellar_journey.Base.filter_where
    stellar_journey.Api.Routes.Listing.find_many stellar_journey.Api.Routes.Mandates.listed_mandates
lists_cached = refl

list_rejects :
    (list_mandates (answering mandate_unavailable) merchant 25 two_merchants).0
    ≡ thrown stellar_journey.Store.rejected
unfolding list_mandates stellar_journey.Base.filter_where
    stellar_journey.Api.Routes.Listing.find_many stellar_journey.Api.Routes.Mandates.listed_mandates
list_rejects = refl

has_references : HasReferences merchant paid_world
unfolding refers_within all_where find_where count_where
has_references = record {
  within = refl;
  product_ids = λ id. ground arith;
  payment_ids = λ id. ground arith;
}

-- A refund is requested, and then a product created.
abbrev stocked : World
stocked = (create_product merchant product_deps new_plan refunded.0).1

stocks :
    create_product merchant product_deps new_plan refunded.0
    ≡ (returned (to_product_response plan), stocked)
unfolding find_where create_product stellar_journey.Api.Routes.Products.matches_schema
    stellar_journey.Api.Routes.Refunds.create_refund
    stellar_journey.Api.Routes.require_idempotency_key stellar_journey.Api.Routes.is_decimal_amount
    stellar_journey.Shared.Money.is_number stellar_journey.Shared.Money.before_dot
    stellar_journey.Shared.Money.all_digits stellar_journey.Shared.Money.after_dot
    stellar_journey.Api.Routes.Refunds.check_refund
    stellar_journey.Shared.Money.decimal_to_positive_base_units stellar_journey.Shared.Money.parts
    stellar_journey.Shared.Money.value stellar_journey.Shared.Money.zeros
    stellar_journey.Api.Idempotency.run_idempotent stellar_journey.Api.Idempotency.attempt
    stellar_journey.Api.Routes.Refunds.new_refund
stocks = refl

p2_new : find_where (is_product "p2") refunded.0.products ≡ none
unfolding find_where stellar_journey.Api.Routes.Refunds.create_refund
    stellar_journey.Api.Routes.require_idempotency_key stellar_journey.Api.Routes.is_decimal_amount
    stellar_journey.Shared.Money.is_number stellar_journey.Shared.Money.before_dot
    stellar_journey.Shared.Money.all_digits stellar_journey.Shared.Money.after_dot
    stellar_journey.Api.Routes.Refunds.check_refund
    stellar_journey.Shared.Money.decimal_to_positive_base_units stellar_journey.Shared.Money.parts
    stellar_journey.Shared.Money.value stellar_journey.Shared.Money.zeros
    stellar_journey.Api.Idempotency.run_idempotent stellar_journey.Api.Idempotency.attempt
    stellar_journey.Api.Routes.Refunds.new_refund
p2_new = refl

two_writes : Writes paid_world stocked
two_writes =
    next
      (next none_yet (
        requests_refund merchant refund_deps (some "k") "hash" "pay1" (codes "3") [] refunded.1
          created refunds refl))
      (creates_product merchant product_deps new_plan (to_product_response plan) p2_new stocks)

Writes-HasReferences_example : HasReferences merchant stocked
Writes-HasReferences_example =
    Writes-HasReferences merchant paid_world stocked has_references two_writes
