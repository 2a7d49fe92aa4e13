-- ===== src/Api/Tests/Routes.antt =====
-- Refunds, checkout sessions, webhook endpoints, products and lists (apps/api/src/routes) on a small store.
use stellar_journey.Base.{
  ℕ, ◌≤◌, ◌<◌, ◌≡◌, ◌⊎◌, inl, inr, refl, String, Bool, true, false, Option, none, some, List, [],
  ◌∷◌, arith, codes, find_where, str_eq, if◌then◌else◌, ltb,
}
use stellar_journey.Base.Effect.{returned, thrown}
use stellar_journey.Stellar.Tests.{some_id}
use stellar_journey.Store.{Product, fixed_amount, CheckoutSession, open_session, Payment, World}
use stellar_journey.Api.Idempotency.{IdempotencyKey, IdempotentOutcome}
use stellar_journey.Api.Routes.Refunds.{RefundDeps, create_refund}
use stellar_journey.Api.Routes.Refunds.Bounded.{IsRequested, create_refund-IsRequested}
use stellar_journey.Api.Routes.Checkout.{
  CheckoutDeps, LinkMandate, Included, find_included, link_session, already_linked, link_mandate,
}
use stellar_journey.Api.Routes.Checkout.Linking.{
  WasLinked, IsLinked, link_mandate_lem, linked_again,
}
use stellar_journey.Api.Routes.Endpoints.{
  EndpointDeps, RegisteredEndpoint, register_webhook_endpoint,
}
use stellar_journey.Api.Routes.Products.{
  CreateProduct, ProductDeps, ProductResponse, AmountInput, fixed, product_row, to_product_response,
  create_product, get_product,
}
use stellar_journey.Api.Routes.Products.Created.{AsAsked, get_created}
use stellar_journey.Relayer.Delivery.{WebhookDeliveryDeps}
use stellar_journey.Relayer.Delivery.Classify.{http}
use stellar_journey.Api.Tests.Charging.{charge_deps, merchant, session, world as charged_world}

abbrev payment : Payment
payment = record {
  payment_id = "pay1";
  merchant_id = "shop";
  mandate_id = some_id;
  charge_id = "charge";
  charge_request_id = "c1";
  amount = 500;
  asset_address = "usdc";
  transaction_hash = "hash";
  ledger = 7;
  refunded_total = 200;
  created_at = 5;
}

abbrev pub world : World
world = record charged_world { payments = payment ∷ [] }

abbrev pub refund_deps : RefundDeps
refund_deps = record {
  reader = charge_deps.reader;
  random_hex_id = λ n. "refund";
  uuid = λ n. "uuid";
  print = λ response. "{}";
}

abbrev pub created : IdempotentOutcome
created = record { replayed = false; status = 201; body = "{}" }

-- "3" of the 5 that were paid, of which 2 are refunded.
abbrev pub refunded : World × List IdempotencyKey
refunded = (create_refund refund_deps merchant (some "k") "hash" "pay1" (codes "3") (world, [])).1

pub refunds :
    create_refund refund_deps merchant (some "k") "hash" "pay1" (codes "3") (world, [])
    ≡ (returned created, refunded)
unfolding create_refund stellar_journey.Api.Routes.require_idempotency_key
    stellar_journey.Api.Routes.is_decimal_amount stellar_journey.Shared.Money.is_number
    stellar_journey.Shared.Money.before_dot stellar_journey.Shared.Money.all_digits
    stellar_journey.Shared.Money.after_dot stellar_journey.Api.Routes.Refunds.check_refund
    find_where stellar_journey.Shared.Money.decimal_to_positive_base_units
    stellar_journey.Shared.Money.parts stellar_journey.Shared.Money.value
    stellar_journey.Shared.Money.zeros stellar_journey.Api.Idempotency.run_idempotent
    stellar_journey.Api.Idempotency.attempt stellar_journey.Api.Routes.Refunds.new_refund
refunds = refl

create_refund-IsRequested_example :
    IsRequested refund_deps merchant "pay1" (codes "3") world refunded.0 created
create_refund-IsRequested_example =
    create_refund-IsRequested refund_deps merchant (some "k") "hash" "pay1" (codes "3") world
      refunded.0 [] refunded.1 created refunds refl

abbrev checkout_deps : CheckoutDeps
checkout_deps = record {
  reader = charge_deps.reader;
  is_uuid = λ s. true;
  is_account_address = λ s. true;
  parse_date = λ s. none;
  uuid = λ n. "uuid";
  print = λ row. "{}";
}

abbrev opened : CheckoutSession
opened = record session { status = open_session; mandate_id = none; payer_address = none }

abbrev before : World
before = record world { sessions = opened ∷ [] }

abbrev link : LinkMandate
link = record { mandate_id = some_id; payer_address = "payer" }

abbrev another : LinkMandate
another = record {
  mandate_id = "00000000000000000000000000000000000000000000000000000000000000bF";
  payer_address = "payer";
}

abbrev linked : World
linked = (link_mandate checkout_deps link "s1" before).1

links : link_mandate checkout_deps link "s1" before ≡ (returned (link_session link opened), linked)
unfolding link_mandate stellar_journey.Shared.HexId.is_hex_id32
    stellar_journey.Shared.HexId.hex_digits find_where
    stellar_journey.Api.Routes.Checkout.check_link stellar_journey.Api.Routes.Checkout.store_link
links = refl

link_mandate_lem_example :
    (found : Included) × (find_included "s1" before ≡ some found)
    × (WasLinked checkout_deps link found before linked (link_session link opened)
        ⊎ IsLinked checkout_deps link found before linked (link_session link opened))
link_mandate_lem_example =
    link_mandate_lem checkout_deps link "s1" before linked (link_session link opened) links

linked_again_example : link_mandate checkout_deps another "s1" linked ≡ (
    if str_eq link.mandate_id another.mandate_id
    then (returned (link_session link opened), linked)
    else (thrown already_linked, linked))
unfolding stellar_journey.Shared.HexId.is_hex_id32 stellar_journey.Shared.HexId.hex_digits
linked_again_example =
    linked_again checkout_deps link another "s1" before linked (link_session link opened) refl links

abbrev pub new_plan : CreateProduct
new_plan = record {
  name = "Plan";
  description = none;
  asset_address = "usdc";
  asset_decimals = 2;
  amount = fixed (codes "5");
  max_per_period = codes "7.50";
  period_seconds = 100;
  min_interval_seconds = 10;
  max_successful_charges = 0;
  default_duration_seconds = 1000;
}

abbrev pub product_deps : ProductDeps
product_deps = record { is_contract = λ s. true; uuid = λ n. "p2" }

abbrev pub plan : Product
plan = product_row merchant product_deps "p2" new_plan 750 (fixed_amount 500) 50000

abbrev catalog : World
catalog = (create_product merchant product_deps new_plan world).1

creates :
    create_product merchant product_deps new_plan world
    ≡ (returned (to_product_response plan), catalog)
unfolding create_product stellar_journey.Api.Routes.Products.matches_schema
    stellar_journey.Api.Routes.is_decimal_amount stellar_journey.Shared.Money.is_number
    stellar_journey.Shared.Money.before_dot stellar_journey.Shared.Money.all_digits
    stellar_journey.Shared.Money.after_dot
    stellar_journey.Shared.Money.decimal_to_positive_base_units stellar_journey.Shared.Money.parts
    stellar_journey.Shared.Money.value stellar_journey.Shared.Money.zeros
creates = refl

get_created_example :
    (get_product merchant "p2" catalog ≡ (returned (to_product_response plan), catalog))
    × AsAsked new_plan (to_product_response plan)
unfolding to_product_response
get_created_example =
    get_created merchant product_deps new_plan world catalog (to_product_response plan) creates

-- A guard that allows private addresses, and a host with one.
abbrev endpoint_deps : EndpointDeps
endpoint_deps = record {
  net = record {
    parse_url = λ raw. some (record { protocol = codes "https:"; hostname = codes "shop" });
    is_ip = λ s. 0;
    resolve_host = λ host. some (record { address = codes "10.0.0.1"; family = 4 } ∷ []);
  };
  options = record { allow_insecure_http = false; allow_private_addresses = true };
  is_url = λ s. true;
  generate_webhook_secret = λ n. "secret";
  encrypt_webhook_secret = λ secret key. "sealed";
  webhook_encryption_key = "key";
  random_hex_id = λ n. "event";
  uuid = λ n. "uuid";
}

abbrev endpoint : RegisteredEndpoint
endpoint = record { webhook_url = "https://shop/"; webhook_secret = "secret" }

abbrev registered : World
registered = (register_webhook_endpoint merchant endpoint_deps "https://shop/" world).1

abbrev relayer : WebhookDeliveryDeps
relayer = record {
  webhook_encryption_key = "key";
  decrypt_webhook_secret = λ sealed key. some "secret";
  send = λ post. http 200;
  shown = λ n. "200";
}
