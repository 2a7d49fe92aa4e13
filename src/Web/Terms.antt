-- ===== src/Web/Terms.antt =====
-- apps/web/src/lib/mandate-terms.ts: what the payer is about to authorize. Amounts and times are
-- non-negative integers.
pub mod Exposure
pub mod Derived
use stellar_journey.Base.{
  String, ℕ, ◌+◌, ◌-◌, ◌*◌, ◌/◌, Option, none, some, leb, ltb, ◌==◌, if◌then◌else◌,
}
use stellar_journey.Shared.Money.{Units, decimal_to_base_units}
use stellar_journey.Client.Mandate.{AmountRule, fixed, variable}

pub data AmountType : Type 0 where
  is_fixed is_variable : AmountType

-- What the checkout reads of a `PublicProduct`.
pub record PublicProduct : Type 0 where
  pub asset_address : String
  pub asset_decimals : ℕ
  pub amount_type : AmountType
  pub fixed_amount : Option Units
  pub max_per_charge : Option Units
  pub max_per_period : Units
  pub period_seconds : ℕ
  pub min_interval_seconds : ℕ
  pub max_successful_charges : ℕ
  pub default_duration_seconds : ℕ

pub record MandateTerms : Type 0 where
  pub asset_address : String
  pub asset_decimals : ℕ
  pub amount_rule : AmountRule
  pub max_per_period : ℕ
  pub period_seconds : ℕ
  pub min_interval_seconds : ℕ
  pub max_successful_charges : ℕ
  pub start_at : ℕ
  pub expires_at : ℕ

-- `decimalToBaseUnits(requireAmount(…))`; `none` where either throws.
abbrev pub require_amount : Option Units → ℕ → Option ℕ
require_amount none decimals = none
require_amount (some decimal) decimals = decimal_to_base_units decimal decimals

abbrev pub with_rule : (ℕ → AmountRule) → Option ℕ → Option AmountRule
with_rule rule none = none
with_rule rule (some amount) = some (rule amount)

abbrev pub rule_of : PublicProduct → AmountType → Option AmountRule
rule_of product is_fixed =
    with_rule fixed (require_amount product.fixed_amount product.asset_decimals)
rule_of product is_variable =
    with_rule variable (require_amount product.max_per_charge product.asset_decimals)

abbrev pub terms_of : PublicProduct → ℕ → Option AmountRule → Option ℕ → Option MandateTerms
terms_of product now (some rule) (some max_per_period) = some (record {
  asset_address = product.asset_address;
  asset_decimals = product.asset_decimals;
  amount_rule = rule;
  max_per_period = max_per_period;
  period_seconds = product.period_seconds;
  min_interval_seconds = product.min_interval_seconds;
  max_successful_charges = product.max_successful_charges;
  start_at = now;
  expires_at = now + product.default_duration_seconds;
})
terms_of product now _ _ = none

unfoldable pub derive_mandate_terms : PublicProduct → ℕ → Option MandateTerms
derive_mandate_terms product now =
    terms_of product now (rule_of product product.amount_type)
      (decimal_to_base_units product.max_per_period product.asset_decimals)

-- `none` where it throws.
unfoldable pub ceil_div : ℕ → ℕ → Option ℕ
ceil_div a b = if b == 0 then none else some ((a + b - 1) / b)

abbrev pub per_charge_ceiling : AmountRule → ℕ
per_charge_ceiling (fixed amount) = amount
per_charge_ceiling (variable max_per_charge) = max_per_charge

-- A difference that is not positive counts as one period.
unfoldable pub periods_until_expiry : MandateTerms → Option ℕ
unfolding ceil_div
periods_until_expiry terms =
    if leb terms.expires_at terms.start_at
    then some 1
    else ceil_div (terms.expires_at - terms.start_at) terms.period_seconds

abbrev pub smaller : ℕ → ℕ → ℕ
smaller a b = if ltb a b then a else b

abbrev pub exposure_of : MandateTerms → Option ℕ → Option ℕ
exposure_of terms none = none
exposure_of terms (some periods) =
    let period_bound = terms.max_per_period * periods in
    if terms.max_successful_charges == 0
    then some period_bound
    else some
        (smaller (per_charge_ceiling terms.amount_rule * terms.max_successful_charges) period_bound)

unfoldable pub compute_max_exposure : MandateTerms → Option ℕ
compute_max_exposure terms = exposure_of terms (periods_until_expiry terms)

pub record BoundedAllowance : Type 0 where
  pub max_exposure : ℕ
  pub fee_headroom : ℕ
  pub total : ℕ

abbrev pub allowance_fee_headroom_bps : ℕ
allowance_fee_headroom_bps = 100

abbrev pub with_headroom : ℕ → Option ℕ → Option BoundedAllowance
with_headroom exposure none = none
with_headroom exposure (some headroom) =
    some (record { max_exposure = exposure; fee_headroom = headroom; total = exposure + headroom })

unfoldable pub compute_bounded_allowance : ℕ → Option BoundedAllowance
unfolding ceil_div
compute_bounded_allowance exposure =
    with_headroom exposure (ceil_div (exposure * allowance_fee_headroom_bps) 10000)
