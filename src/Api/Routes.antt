-- ===== src/Api/Routes.antt =====
-- apps/api/src/routes: what the handlers share. A handler runs over the database and the table of
-- idempotency keys; the merchant that the authentication hook found is an argument. What a handler
-- reads from the chain (apps/api/src/chain/mandate-reader.ts), the SDK, the date parser, the cipher,
-- the random ids and the printer of JSON bodies are given by `RouteDeps`.
pub mod Inversion
pub mod Listing
pub mod Isolation
pub mod Charges
pub mod Refunds
pub mod Payments
pub mod Products
pub mod Mandates
pub mod Checkout
pub mod Endpoints
use stellar_journey.Base.{
  ℕ, suc, ◌+◌, ◌-◌, ◌/◌, String, Bool, true, false, not, ◌&&◌, ◌||◌, Option, none, some, List, [],
  ◌∷◌, truthy, ltb, length, codes, if◌then◌else◌,
}
use stellar_journey.Base.Effect.{
  Result, Run, pure, throw, gets, or_throw, ◌>>=◌, ◌>>◌, modify, throw_if,
}
use stellar_journey.Client.Mandate.{Mandate}
use stellar_journey.Shared.HexId.{is_hex_id32}
use stellar_journey.Shared.Money.{
  Units, is_number, before_dot, after_dot, decimal_to_positive_base_units,
}
use stellar_journey.Stellar.Authorization.{StellarSdk}
use stellar_journey.Store.{
  Product, World, Fault, api_error, rejected, Job, read_mandate, read_ledger, log_call, product_of,
}
use stellar_journey.Api.Idempotency.{IdempotencyKey, Keyed, on_store}

-- What `getMandate` does: it resolves, throws a `MandateReadError`, or throws anything else.
pub data MandateAnswer : Type 0 where
  mandate_found : Mandate → MandateAnswer
  mandate_read_error : MandateAnswer
  mandate_unavailable : MandateAnswer

-- `none` where a call rejects.
pub record MandateReader : Type 0 where
  pub get_mandate : String → MandateAnswer
  pub get_refunded_total : String → Option ℕ
  pub get_latest_ledger_sequence : Option ℕ

abbrev pub Route : Type 0 → Type 0
Route A = Keyed World A

abbrev pub validation_error : Fault
validation_error = api_error 400 "VALIDATION_ERROR"

-- `DecimalAmountSchema` of apps/api/src/schemas/common.ts.
unfoldable pub is_decimal_amount : Units → Bool
is_decimal_amount s = is_number (before_dot s) && is_fraction (after_dot s)
  where
    is_fraction : Option Units → Bool
    is_fraction none = true
    is_fraction (some fraction) = is_number fraction

unfoldable pub require_idempotency_key : Option String → Route String
require_idempotency_key header = do
  value ← or_throw (truthy header) (api_error 400 "MISSING_IDEMPOTENCY_KEY")
  throw_if (ltb 255 (length (codes value))) validation_error
  pure value

abbrev pub decimals_of : Option Product → Option ℕ
decimals_of none = none
decimals_of (some product) = some product.asset_decimals

-- apps/api/src/services/asset-decimals.ts.
abbrev pub resolve_asset_decimals_for_mandate : String → String → Job ℕ
resolve_asset_decimals_for_mandate merchant_id mandate_id = do
  product ← gets (product_of merchant_id mandate_id)
  or_throw (decimals_of product) (api_error 404 "MANDATE_NOT_LINKED_TO_PRODUCT")

abbrev pub positive_amount : Units → ℕ → Job ℕ
positive_amount amount decimals =
    or_throw (decimal_to_positive_base_units amount decimals) (api_error 400 "INVALID_AMOUNT")

-- The mandate that was read; `missing` is thrown where there is none.
abbrev pub mandate_or : Fault → MandateAnswer → Job Mandate
mandate_or missing (mandate_found mandate) = pure mandate
mandate_or missing mandate_read_error = throw missing
mandate_or missing mandate_unavailable = throw rejected

-- A fresh random id, by an argument.
abbrev pub fresh : (ℕ → String) → Job String
fresh name = do
  n ← gets (λ w. w.uuids)
  modify (λ w. record w { uuids = suc w.uuids })
  pure (name n)

module _ (reader : MandateReader) where
  abbrev pub require_mandate : Fault → String → Job Mandate
  require_mandate missing id = do
    modify (log_call (read_mandate id))
    mandate_or missing (reader.get_mandate id)

  abbrev pub get_latest_ledger : Job ℕ
  get_latest_ledger = do
    modify (log_call read_ledger)
    or_throw reader.get_latest_ledger_sequence rejected
