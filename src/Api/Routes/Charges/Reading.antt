-- ===== src/Api/Routes/Charges/Reading.antt =====
-- apps/api/src/routes/charges.ts: a merchant lists its charges and reads one; a charge without an
-- authorization is refused.
use stellar_journey.Base.{
  ℕ, String, Bool, true, false, ◌&&◌, ◌||◌, Option, none, some, List, [], ◌∷◌, map, str_eq, ltb,
  ◌==◌, truthy, codes, trim, split, units_eq, find_where, if◌then◌else◌,
}
use stellar_journey.Base.Effect.{pure, throw, gets, or_throw, ◌>>=◌, ◌>>◌, throw_if}
use stellar_journey.Shared.Money.{Units}
use stellar_journey.Store.{
  ChargeRequest, Merchant, World, Fault, api_error, Job, is_charge, product_of,
}
use stellar_journey.Api.ChargeStatus.{
  ChargeRequestStatus, scheduled, processing, simulated, submitted, succeeded, retryable_failed,
  permanently_failed, eq_status,
}
use stellar_journey.Api.Routes.{validation_error, decimals_of, resolve_asset_decimals_for_mandate}
use stellar_journey.Api.Routes.Listing.{find_many}
use stellar_journey.Api.Routes.Charges.{ChargeRequestResponse, to_charge_request_response}

abbrev pub merchant_authorization_required : Fault
merchant_authorization_required = api_error 409 "MERCHANT_AUTHORIZATION_REQUIRED"

-- `POST /mandates/:id/charges`.
abbrev pub create_charge : Job ChargeRequestResponse
create_charge = throw merchant_authorization_required

-- The statuses of the enum, by their names.
abbrev pub charge_statuses : List (Units × ChargeRequestStatus)
charge_statuses =
    (codes "scheduled", scheduled)
    ∷ (codes "processing", processing)
    ∷ (codes "simulated", simulated)
    ∷ (codes "submitted", submitted)
    ∷ (codes "succeeded", succeeded)
    ∷ (codes "retryable_failed", retryable_failed)
    ∷ (codes "permanently_failed", permanently_failed)
    ∷ []

abbrev pub named : Units → List (Units × ChargeRequestStatus) → Option ChargeRequestStatus
named s [] = none
named s ((name, status) ∷ others) = if units_eq name s then some status else named s others

abbrev pub with_charge_status :
    Option ChargeRequestStatus
    → Option (List ChargeRequestStatus)
    → Option (List ChargeRequestStatus)
with_charge_status (some s) (some ss) = some (s ∷ ss)
with_charge_status _ _ = none

unfoldable pub parse_charge_statuses : List Units → Option (List ChargeRequestStatus)
parse_charge_statuses [] = some []
parse_charge_statuses (s ∷ ss) =
    with_charge_status (named (trim s) charge_statuses) (parse_charge_statuses ss)

abbrev pub is_among_charges : List ChargeRequestStatus → ChargeRequestStatus → Bool
is_among_charges [] status = false
is_among_charges (s ∷ ss) status = eq_status s status || is_among_charges ss status

abbrev pub charge_filter : Option String → Option (ChargeRequestStatus → Bool)
charge_filter none = some (λ status. true)
charge_filter (some text) = of_statuses (parse_charge_statuses (split b',' (codes text)))
  where
    of_statuses : Option (List ChargeRequestStatus) → Option (ChargeRequestStatus → Bool)
    of_statuses none = none
    of_statuses (some statuses) = some (is_among_charges statuses)

abbrev pub of_mandate : Option String → ChargeRequest → Bool
of_mandate none row = true
of_mandate (some mandate_id) row = str_eq row.mandate_id mandate_id

abbrev pub charge_not_found : Fault
charge_not_found = api_error 404 "CHARGE_REQUEST_NOT_FOUND"

module _ (merchant : Merchant) where
  abbrev pub or_seven_decimals : Option ℕ → ℕ
  or_seven_decimals none = 7
  or_seven_decimals (some decimals) = decimals

  abbrev pub charges_where :
      Option String → ℕ → (ChargeRequestStatus → Bool) → World → List ChargeRequestResponse
  charges_where mandate_id limit passes w =
      map
        (λ row.
          to_charge_request_response row
            (or_seven_decimals (decimals_of (product_of merchant.id row.mandate_id w))))
        (find_many (λ row. row.created_at)
          (λ row.
            str_eq row.merchant_id merchant.id
            && of_mandate (truthy mandate_id) row
            && passes row.status)
          limit w.charge_requests)

  unfoldable pub list_charges : Option String → Option String → ℕ → Job (List ChargeRequestResponse)
  list_charges mandate_id status limit = do
    throw_if (limit == 0 || ltb 100 limit) validation_error
    passes ← or_throw (charge_filter status) (api_error 400 "INVALID_STATUS_FILTER")
    gets (charges_where mandate_id limit passes)

  abbrev pub is_own_charge : String → ChargeRequest → Bool
  is_own_charge id row = is_charge id row && str_eq row.merchant_id merchant.id

  abbrev pub show_charge : ChargeRequest → Job ChargeRequestResponse
  show_charge row = do
    decimals ← resolve_asset_decimals_for_mandate merchant.id row.mandate_id
    pure (to_charge_request_response row decimals)

  unfoldable pub get_charge : String → Job ChargeRequestResponse
  get_charge id = do
    found ← gets (λ w. find_where (is_own_charge id) w.charge_requests)
    row ← or_throw found charge_not_found
    show_charge row
