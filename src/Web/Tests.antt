-- ===== src/Web/Tests.antt =====
-- The logic of the web pages on small inputs.
use stellar_journey.Store.{Product, fixed_amount}
use stellar_journey.Api.Routes.Products.{to_product_response}
use stellar_journey.Web.Terms.{derive_mandate_terms}
use stellar_journey.Web.Terms.Derived.{as_public, stored_terms, derive_mandate_terms-stored}
use stellar_journey.Base.{◌≤◌, ◌≡◌, inr, refl, true, none, some, List, [], ◌∷◌, arith, all_where}
use stellar_journey.Client.Mandate.{active, fixed, Mandate}
use stellar_journey.Web.Display.{DisplayError}
use stellar_journey.Web.MandateStatus.{compute_next_eligible_charge_date}
use stellar_journey.Api.Precheck.{clear, check_period, check_active, precheck_charge}
use stellar_journey.Web.MandateStatus.NextCharge.{IsNext, compute_next_eligible_charge_date-IsNext}
use stellar_journey.Web.MandateStatus.Agreement.{IsFirstClear, next_date-precheck}
use stellar_journey.Web.Terms.{MandateTerms, ceil_div, periods_until_expiry, compute_max_exposure}
use stellar_journey.Web.Terms.Exposure.{total, Allowed, compute_max_exposure-bounds}
use stellar_journey.Web.Checkout.{CheckoutAction, approve_start, approve_error, keeps_mandate}

-- A mandate whose first period is used up.
abbrev mandate : Mandate
mandate = record {
  id = "m1";
  payer = "payer";
  merchant = "wallet";
  asset = "usdc";
  status = active;
  amount_rule = fixed 500;
  max_per_period = 500;
  period_seconds = 100;
  min_interval_seconds = 10;
  start_at = 0;
  expires_at = 1000;
  max_successful_charges = 0;
  successful_charges = 1;
  total_collected = 500;
  current_period_start = 0;
  current_period_collected = 500;
  last_charged_at = some 20;
  created_at = 0;
  metadata_hash = "";
}

compute_next_eligible_charge_date-IsNext_example :
    IsNext mandate (compute_next_eligible_charge_date mandate)
compute_next_eligible_charge_date-IsNext_example =
    compute_next_eligible_charge_date-IsNext mandate (omega arith) (omega arith)

next_date-precheck_example :
    IsFirstClear mandate 500 refl
      (omega arith)
      (omega arith)
      (compute_next_eligible_charge_date mandate)
next_date-precheck_example =
    next_date-precheck mandate 500 refl (omega arith) (omega arith) (omega arith)

clear_later : precheck_charge mandate 500 150 ≡ clear
unfolding precheck_charge check_active check_period
clear_later = refl

abbrev terms : MandateTerms
terms = record {
  asset_address = "usdc";
  asset_decimals = 7;
  amount_rule = fixed 500;
  max_per_period = 500;
  period_seconds = 100;
  min_interval_seconds = 0;
  max_successful_charges = 2;
  start_at = 0;
  expires_at = 250;
}

exposure : compute_max_exposure terms ≡ some 1000
unfolding compute_max_exposure periods_until_expiry ceil_div
exposure = refl

two_charges : Allowed terms ((500 ∷ []) ∷ (500 ∷ []) ∷ [])
two_charges = record {
  limits = ((omega arith, tt), omega arith, ((omega arith, tt), omega arith, tt));
  count = inr (omega arith);
  begins = λ k before. omega arith;
}

compute_max_exposure-bounds_example : total ((500 ∷ []) ∷ (500 ∷ []) ∷ []) ≤ 1000
compute_max_exposure-bounds_example =
    compute_max_exposure-bounds terms 1000 ((500 ∷ []) ∷ (500 ∷ []) ∷ []) exposure two_charges

abbrev declined : DisplayError
declined = record { message = "declined"; code = "WALLET"; retryable = true }

abbrev actions : List CheckoutAction
actions = approve_error declined ∷ approve_start ∷ []

kept : all_where keeps_mandate actions ≡ true
unfolding all_where
kept = refl

abbrev product : Product
product = record {
  id = "p1";
  merchant_id = "m1";
  name = "plan";
  description = none;
  asset_address = "usdc";
  asset_decimals = 7;
  amount = fixed_amount 55000000;
  max_per_period = 110000000;
  period_seconds = 86400;
  min_interval_seconds = 0;
  max_successful_charges = 12;
  default_duration_seconds = 864000;
  active = true;
  created_at = 0;
}

derive_mandate_terms-stored_example :
    derive_mandate_terms (as_public (to_product_response product)) 1000
    ≡ some (stored_terms product 1000)
derive_mandate_terms-stored_example = derive_mandate_terms-stored product 1000
