-- ===== src/Web/Terms/Derived.antt =====
-- From a product in the API's table to the terms that the checkout derives of it (apps/web/src/lib/mandate-terms.ts).
use stellar_journey.Base.{ℕ, ◌+◌, ◌≡◌, refl, Option, none, some}
use stellar_journey.Shared.Money.{Units}
use stellar_journey.Client.Mandate.{AmountRule, fixed, variable}
use stellar_journey.Store.{Product, ProductAmount, fixed_amount, max_per_charge}
use stellar_journey.Api.Routes.Products.{
  AmountInput, fixed as fixed_decimal, variable as variable_decimal, ProductResponse, show_amount,
  to_product_response,
}
use stellar_journey.Api.Routes.Products.Created.{print_parse}
use stellar_journey.Web.Terms.{
  AmountType, is_fixed, is_variable, PublicProduct, MandateTerms, derive_mandate_terms,
}

-- The body of an answer, in which the type of the amount says where the amount stands.
abbrev pub type_of : AmountInput → AmountType
type_of (fixed_decimal decimal) = is_fixed
type_of (variable_decimal decimal) = is_variable

abbrev pub fixed_of : AmountInput → Option Units
fixed_of (fixed_decimal decimal) = some decimal
fixed_of (variable_decimal decimal) = none

abbrev pub variable_of : AmountInput → Option Units
variable_of (fixed_decimal decimal) = none
variable_of (variable_decimal decimal) = some decimal

abbrev pub as_public : ProductResponse → PublicProduct
as_public response = record {
  asset_address = response.asset_address;
  asset_decimals = response.asset_decimals;
  amount_type = type_of response.amount;
  fixed_amount = fixed_of response.amount;
  max_per_charge = variable_of response.amount;
  max_per_period = response.max_per_period;
  period_seconds = response.period_seconds;
  min_interval_seconds = response.min_interval_seconds;
  max_successful_charges = response.max_successful_charges;
  default_duration_seconds = response.default_duration_seconds;
}

-- The rule of a mandate that the stored amount asks for.
abbrev pub stored_rule : ProductAmount → AmountRule
stored_rule (fixed_amount amount) = fixed amount
stored_rule (max_per_charge amount) = variable amount

abbrev pub stored_terms : Product → ℕ → MandateTerms
stored_terms product now = record {
  asset_address = product.asset_address;
  asset_decimals = product.asset_decimals;
  amount_rule = stored_rule product.amount;
  max_per_period = product.max_per_period;
  period_seconds = product.period_seconds;
  min_interval_seconds = product.min_interval_seconds;
  max_successful_charges = product.max_successful_charges;
  start_at = now;
  expires_at = now + product.default_duration_seconds;
}

derive_of :
    (product : Product) (amount : ProductAmount) (now : ℕ)
    → product.amount ≡ amount
    → derive_mandate_terms (as_public (to_product_response product)) now
      ≡ some (stored_terms product now)
unfolding derive_mandate_terms to_product_response show_amount
derive_of product (fixed_amount amount) now e =
    rw
      (
        e,
        print_parse amount product.asset_decimals,
        print_parse product.max_per_period product.asset_decimals,
      )
      refl
derive_of product (max_per_charge amount) now e =
    rw
      (
        e,
        print_parse amount product.asset_decimals,
        print_parse product.max_per_period product.asset_decimals,
      )
      refl

-- For every product of the API's table, the terms that the checkout derives from its answer, the
-- amounts of which are decimals, are those of the table: the same rule, limits and times in base
-- units, from now until the product's duration has passed.
pub derive_mandate_terms-stored :
    (product : Product) (now : ℕ)
    → derive_mandate_terms (as_public (to_product_response product)) now
      ≡ some (stored_terms product now)
derive_mandate_terms-stored product now = derive_of product product.amount now refl
