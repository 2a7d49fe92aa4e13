-- ===== src/Relayer/Context.antt =====
-- apps/relayer/src/context.ts: what the merchant's own records say that a charge must look like.
use stellar_journey.Base.{String, Option, none, some, find_where}
use stellar_journey.Store.{World, Merchant, Product, is_merchant, product_of}

pub record ChargeContext : Type 0 where
  pub merchant_wallet_address : String
  pub expected_asset_address : String

abbrev context_of : Option Merchant → Option Product → Option ChargeContext
context_of none product = none
context_of (some merchant) none = none
context_of (some merchant) (some product) = some (record {
  merchant_wallet_address = merchant.wallet_address;
  expected_asset_address = product.asset_address;
})

-- `none` is a `ChargeContextError`.
unfoldable pub resolve_charge_context : String → String → World → Option ChargeContext
unfolding find_where
resolve_charge_context merchant_id mandate_id w =
    context_of (find_where (is_merchant merchant_id) w.merchants)
      (product_of merchant_id mandate_id w)
