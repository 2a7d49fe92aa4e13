-- ===== src/Api/Routes/Products.antt =====
-- apps/api/src/routes/products.ts and apps/api/src/schemas/products.ts: a merchant's catalog.
pub mod Created
use stellar_journey.Base.{
  ℕ, ◌*◌, String, Bool, true, false, not, ◌&&◌, ◌||◌, Option, none, some, List, [], ◌∷◌, map,
  str_eq, leb, ltb, ◌==◌, find_where, length, codes, if◌then◌else◌,
}
use stellar_journey.Base.Effect.{pure, throw, gets, or_throw, ◌>>=◌, ◌>>◌, modify, throw_if}
use stellar_journey.Shared.Money.{Units, base_units_to_decimal_string}
use stellar_journey.Store.{
  Product, ProductAmount, fixed_amount, max_per_charge, World, Fault, api_error, Job, Merchant,
  is_product,
}
use stellar_journey.Api.Routes.{validation_error, is_decimal_amount, positive_amount, fresh}
use stellar_journey.Api.Routes.Listing.{find_many}

-- `amountType` with its amount, as a decimal.
pub data AmountInput : Type 0 where
  fixed variable : Units → AmountInput

pub record CreateProduct : Type 0 where
  pub name : String
  pub description : Option String
  pub asset_address : String
  pub asset_decimals : ℕ
  pub amount : AmountInput
  pub max_per_period : Units
  pub period_seconds : ℕ
  pub min_interval_seconds : ℕ
  pub max_successful_charges : ℕ
  pub default_duration_seconds : ℕ

pub record ProductResponse : Type 0 where
  pub id : String
  pub name : String
  pub description : Option String
  pub asset_address : String
  pub asset_decimals : ℕ
  pub amount : AmountInput
  pub max_per_period : Units
  pub period_seconds : ℕ
  pub min_interval_seconds : ℕ
  pub max_successful_charges : ℕ
  pub default_duration_seconds : ℕ
  pub active : Bool
  pub created_at : ℕ

pub record ProductDeps : Type 0 where
  -- `StrKey.isValidContract`.
  pub is_contract : String → Bool
  pub uuid : ℕ → String

unfoldable pub show_amount : ProductAmount → ℕ → AmountInput
show_amount (fixed_amount amount) decimals = fixed (base_units_to_decimal_string amount decimals)
show_amount (max_per_charge amount) decimals =
    variable (base_units_to_decimal_string amount decimals)

unfoldable pub to_product_response : Product → ProductResponse
to_product_response product = record {
  id = product.id;
  name = product.name;
  description = product.description;
  asset_address = product.asset_address;
  asset_decimals = product.asset_decimals;
  amount = show_amount product.amount product.asset_decimals;
  max_per_period = base_units_to_decimal_string product.max_per_period product.asset_decimals;
  period_seconds = product.period_seconds;
  min_interval_seconds = product.min_interval_seconds;
  max_successful_charges = product.max_successful_charges;
  default_duration_seconds = product.default_duration_seconds;
  active = product.active;
  created_at = product.created_at;
}

-- `BoundedDurationSecondsSchema`: at most ten years.
abbrev pub max_duration_seconds : ℕ
max_duration_seconds = 60 * 60 * 24 * 365 * 10

abbrev pub is_bounded_duration : ℕ → Bool
is_bounded_duration seconds = ltb 0 seconds && leb seconds max_duration_seconds

abbrev pub decimal_of : AmountInput → Units
decimal_of (fixed decimal) = decimal
decimal_of (variable decimal) = decimal

abbrev pub short : Option String → Bool
short none = true
short (some text) = leb (length (codes text)) 2000

unfoldable pub matches_schema : (String → Bool) → CreateProduct → Bool
matches_schema is_contract input =
    ltb 0 (length (codes input.name))
    && leb (length (codes input.name)) 200
    && short input.description
    && is_contract input.asset_address
    && leb input.asset_decimals 24
    && is_decimal_amount (decimal_of input.amount)
    && is_decimal_amount input.max_per_period
    && is_bounded_duration input.period_seconds
    && is_bounded_duration input.default_duration_seconds

abbrev pub add_product : Product → World → World
add_product product w = record w { products = product ∷ w.products }

-- The amount that the type of the product takes.
abbrev pub parse_amount : AmountInput → ℕ → Job ProductAmount
parse_amount (fixed decimal) decimals = do
  amount ← positive_amount decimal decimals
  pure (fixed_amount amount)
parse_amount (variable decimal) decimals = do
  amount ← positive_amount decimal decimals
  pure (max_per_charge amount)

abbrev pub is_product_of : String → String → Product → Bool
is_product_of merchant_id id row = is_product id row && str_eq row.merchant_id merchant_id

abbrev pub product_not_found : Fault
product_not_found = api_error 404 "PRODUCT_NOT_FOUND"

module _ (merchant : Merchant) where
  unfoldable pub list_products : ℕ → Job (List ProductResponse)
  list_products limit =
      if limit == 0 || ltb 100 limit
      then throw validation_error
      else gets (λ w. map to_product_response (
          find_many (λ row. row.created_at) (λ row. str_eq row.merchant_id merchant.id) limit
            w.products))

  unfoldable pub get_product : String → Job ProductResponse
  get_product id = do
    found ← gets (λ w. find_where (is_product_of merchant.id id) w.products)
    product ← or_throw found product_not_found
    pure (to_product_response product)

  module _ (deps : ProductDeps) where
    abbrev pub product_row : String → CreateProduct → ℕ → ProductAmount → ℕ → Product
    product_row id input max_per_period amount clock = record {
      id = id;
      merchant_id = merchant.id;
      name = input.name;
      description = input.description;
      asset_address = input.asset_address;
      asset_decimals = input.asset_decimals;
      amount = amount;
      max_per_period = max_per_period;
      period_seconds = input.period_seconds;
      min_interval_seconds = input.min_interval_seconds;
      max_successful_charges = input.max_successful_charges;
      default_duration_seconds = input.default_duration_seconds;
      active = true;
      created_at = clock;
    }

    abbrev pub store_product : CreateProduct → ℕ → ProductAmount → Job ProductResponse
    store_product input max_per_period amount = do
      id ← fresh deps.uuid
      clock ← gets (λ w. w.clock)
      let product = product_row id input max_per_period amount clock
      modify (add_product product)
      pure (to_product_response product)

    abbrev pub with_period : CreateProduct → ℕ → Job ProductResponse
    with_period input max_per_period = do
      amount ← parse_amount input.amount input.asset_decimals
      store_product input max_per_period amount

    unfoldable pub create_product : CreateProduct → Job ProductResponse
    create_product input = do
      throw_if (not (matches_schema deps.is_contract input)) validation_error
      max_per_period ← positive_amount input.max_per_period input.asset_decimals
      with_period input max_per_period
