-- ===== src/Api/Tests.antt =====
-- Runs of the API's guards on small inputs.
mod Auth
pub mod Charging
mod Routes
mod Reading
use stellar_journey.Base.{
  ℕ, ◌+◌, ◌≡◌, ◌↔◌, refl, true, false, ◌&&◌, none, some, List, [], ◌∷◌, arith, count_where,
  find_where, if◌then◌else◌,
}
use stellar_journey.Base.Effect.{Run, returned, thrown}
use stellar_journey.Client.Mandate.{active, fixed, Mandate}
use stellar_journey.Store.{
  ChargeRequest, WebhookDelivery, World, Fault, find_charge, find_delivery, rejected,
}
use stellar_journey.Store.Charges.{HasUniqueIds}
use stellar_journey.Api.ChargeStatus.{scheduled, processing, eq_status, is_legal}
use stellar_journey.Api.ChargeStatus.Transition.{no_patch, illegal, move_rows, transition}
use stellar_journey.Api.ChargeStatus.Transition.Laws.{transition_lem, transition_once}
use stellar_journey.Api.DeliveryStatus.{pending, delivering, eq_delivery_status, is_legal_delivery}
use stellar_journey.Api.DeliveryStatus.Transition.{
  no_delivery_patch, move_deliveries, transition_delivery,
}
use stellar_journey.Api.DeliveryStatus.Transition.Laws.{
  HasUniqueDeliveries, transition_delivery_lem,
}
use stellar_journey.Api.Precheck.{clear, precheck_charge}
use stellar_journey.Api.Precheck.Laws.{IsChargeable, precheck_charge_iff}
use stellar_journey.Api.Idempotency.{
  is_key, IdempotencyKey, IdempotentHandlerResult, new_key, completed, run_idempotent,
}
use stellar_journey.Api.Idempotency.Laws.{IsAnswered, run_failed}
use stellar_journey.Api.Idempotency.Kept.{
  Request, serve_all, serve_all-IsAnswered, run_idempotent_once,
}

abbrev row : ChargeRequest
row = record {
  id = "c1";
  merchant_id = "shop";
  mandate_id = "m1";
  charge_id = "charge";
  amount = 500;
  invoice_hash = "invoice";
  scheduled_for = 10;
  status = scheduled;
  attempt_count = 0;
  failure_code = none;
  transaction_hash = none;
  next_attempt_at = none;
  authorization_id = none;
  created_at = 0;
  updated_at = 0;
}

abbrev pub delivery : WebhookDelivery
delivery = record {
  id = "d1";
  merchant_id = "shop";
  event_id = "e1";
  event_type = "payment.succeeded";
  payload = [];
  attempt_count = 0;
  next_attempt_at = none;
  status = pending;
  created_at = 0;
}

abbrev world : World
world = record {
  charge_requests = row ∷ [];
  authorizations = [];
  merchants = [];
  products = [];
  sessions = [];
  mandates = [];
  payments = [];
  refund_requests = [];
  deliveries = delivery ∷ [];
  calls = [];
  posts = [];
  clock = 1000;
  uuids = 0;
}

one_charge : HasUniqueIds (row ∷ [])
unfolding count_where
one_charge id = ground arith

one_delivery : HasUniqueDeliveries (delivery ∷ [])
unfolding count_where
one_delivery id = ground arith

found_charge : find_charge "c1" world ≡ some row
unfolding find_where
found_charge = refl

found_delivery : find_delivery "d1" world ≡ some delivery
unfolding find_where
found_delivery = refl

claimed : (transition "c1" scheduled processing no_patch world).0 ≡ returned tt
unfolding transition count_where
claimed = refl

abbrev mandate : Mandate
mandate = record {
  id = "m1";
  payer = "payer";
  merchant = "wallet";
  asset = "usdc";
  status = active;
  amount_rule = fixed 500;
  max_per_period = 500;
  period_seconds = 100;
  min_interval_seconds = 10;
  start_at = 0;
  expires_at = 1000;
  max_successful_charges = 0;
  successful_charges = 1;
  total_collected = 500;
  current_period_start = 0;
  current_period_collected = 500;
  last_charged_at = some 20;
  created_at = 0;
  metadata_hash = "";
}

precheck_charge_iff_example :
    (precheck_charge mandate 500 100 ≡ clear) ↔ IsChargeable mandate 500 100
precheck_charge_iff_example = precheck_charge_iff mandate 500 100

-- A handler that counts its calls.
abbrev count_up : Run ℕ Fault IdempotentHandlerResult
count_up n = (returned (record { status = 201; body = "created" }), n + 1)

abbrev fail_request : Run ℕ Fault IdempotentHandlerResult
fail_request n = (thrown rejected, n + 1)

no_rows : find_where (is_key "shop" "k") [] ≡ none
unfolding find_where
no_rows = refl

run_failed_example :
    run_idempotent "shop" "k" "hash" fail_request (3, []) ≡ (thrown rejected, (3, []))
run_failed_example = run_failed "shop" "k" "hash" fail_request 3 [] rejected 4 no_rows refl

abbrev requests : List (Request ℕ)
requests =
    record { merchant_id = "shop"; key = "other"; request_hash = "hash"; handler = count_up }
    ∷ record { merchant_id = "shop"; key = "k"; request_hash = "different"; handler = count_up }
    ∷ []

run_idempotent_once_example :
    let first = run_idempotent "shop" "k" "hash" count_up (3, []) in
    let later = serve_all requests first.1 in
    (first.0 ≡ returned (record { replayed = false; status = 201; body = "created" }))
    × (first.1.0 ≡ 4)
    × (run_idempotent "shop" "k" "hash" count_up later
        ≡ (returned (record { replayed = true; status = 201; body = "created" }), later))
run_idempotent_once_example =
    run_idempotent_once "shop" "k" "hash" count_up count_up 3 4 []
      (record { status = 201; body = "created" }) requests no_rows refl

abbrev answered_row : IdempotencyKey
answered_row = completed (record { status = 201; body = "created" }) (new_key "shop" "k" "hash")

answered : IsAnswered "shop" "k" "hash" 201 "created" (answered_row ∷ [])
unfolding find_where
answered = record {
  row = answered_row;
  found = refl;
  hash = refl;
  has_status = refl;
  has_body = refl;
}
