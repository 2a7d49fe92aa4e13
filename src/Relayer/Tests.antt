-- ===== src/Relayer/Tests.antt =====
-- Runs of the relayer on small inputs, with a gateway that accepts the charge.
mod Scheduling
mod Indexing
mod Sending
mod Comparing
use stellar_journey.Base.{
  ℕ, suc, ◌+◌, ◌≤◌, ◌<◌, ◌≡◌, ◌≢◌, ◌↔◌, ◌⊎◌, inl, inr, refl, String, Bool, true, false, ◌&&◌,
  Option, none, some, List, [], ◌∷◌, arith, str_eq, count_where, find_where, if◌then◌else◌,
}
use stellar_journey.Base.Effect.{returned, thrown}
use stellar_journey.Stellar.Errors.{by_name}
use stellar_journey.Client.Mandate.{active, fixed, Mandate, PaymentReceipt}
use stellar_journey.Store.{
  Product, fixed_amount, CheckoutSession, completed, ChargeRequest, Merchant, CheckoutSession,
  WebhookDelivery, Post, World, is_charge, is_delivery, find_charge, find_delivery,
}
use stellar_journey.Store.Charges.{HasUniqueIds}
use stellar_journey.Api.ChargeStatus.{
  ChargeRequestStatus, scheduled, processing, submitted, retryable_failed, permanently_failed,
  eq_status,
}
use stellar_journey.Api.DeliveryStatus.{pending, delivering, delivered}
use stellar_journey.Api.DeliveryStatus.Transition.Laws.{HasUniqueDeliveries}
use stellar_journey.Relayer.Gateway.{accepted, success, mandate_found, prepared, ChainGateway}
use stellar_journey.Relayer.Classify.{classify_contract_error_name}
use stellar_journey.Relayer.Classify.Laws.{IsFaithful, classify_contract_error_name_lem}
use stellar_journey.Relayer.Retry.{
  max_attempts, max_webhook_attempts, next_retry_at, next_webhook_retry_at,
}
use stellar_journey.Relayer.Retry.Laws.{
  next_retry_at-some_iff, next_retry_at_bounds, next_webhook_retry_at-some_iff,
}
use stellar_journey.Relayer.Pipeline.Outcome.{
  PipelineDeps, PipelineOutcome, skipped_not_claimable, retry_scheduled,
}
use stellar_journey.Relayer.Pipeline.Process.{claim, process_charge_request}
use stellar_journey.Relayer.Pipeline.Ends.{Ends}
use stellar_journey.Relayer.Pipeline.Running.{
  claimed, process_charge_request-Ends, process_charge_request_skipped,
  process_charge_request-last_attempt, claim_stale,
}
use stellar_journey.Relayer.Delivery.Classify.{
  HttpOutcome, http, success as is_success, classify_webhook_delivery_outcome,
}
use stellar_journey.Relayer.Delivery.{
  WebhookDeliveryDeps, skipped_not_claimable as skipped, claim_delivery, process_webhook_delivery,
}
use stellar_journey.Relayer.Delivery.Sending.{DeliveryEnds}
use stellar_journey.Relayer.Delivery.Laws.{
  claimed_delivery, process_webhook_delivery-Ends, process_webhook_delivery_skipped,
  claim_delivery_stale, classify-success_lem,
}

abbrev mandate : Mandate
mandate = record {
  id = "m1";
  payer = "payer";
  merchant = "wallet";
  asset = "usdc";
  status = active;
  amount_rule = fixed 500;
  max_per_period = 500;
  period_seconds = 100;
  min_interval_seconds = 10;
  start_at = 0;
  expires_at = 1000;
  max_successful_charges = 0;
  successful_charges = 0;
  total_collected = 0;
  current_period_start = 0;
  current_period_collected = 0;
  last_charged_at = none;
  created_at = 0;
  metadata_hash = "";
}

abbrev receipt : PaymentReceipt
receipt = record {
  payment_id = "p1";
  mandate_id = "m1";
  charge_id = "charge";
  payer = "payer";
  merchant = "wallet";
  asset = "usdc";
  amount = 500;
  invoice_hash = "invoice";
  timestamp = 5;
}

abbrev gateway : ChainGateway
gateway = record {
  get_mandate = λ id. mandate_found mandate;
  get_latest_ledger_sequence = none;
  prepare_charge = λ args. prepared (accepted receipt) (some (success receipt "hash" 7));
}

abbrev deps : PipelineDeps
deps = record {
  gateway = gateway;
  authorization_encryption_key = none;
  decrypt_charge_authorization = λ ciphertext key. none;
  uuid = λ n. "uuid";
}

abbrev pub charge_at : ChargeRequestStatus → ℕ → ChargeRequest
charge_at status attempts = record {
  id = "c1";
  merchant_id = "shop";
  mandate_id = "m1";
  charge_id = "charge";
  amount = 500;
  invoice_hash = "invoice";
  scheduled_for = 10;
  status = status;
  attempt_count = attempts;
  failure_code = none;
  transaction_hash = none;
  next_attempt_at = none;
  authorization_id = none;
  created_at = 0;
  updated_at = 0;
}

abbrev pub delivery : WebhookDelivery
delivery = record {
  id = "d1";
  merchant_id = "shop";
  event_id = "e1";
  event_type = "payment.succeeded";
  payload = [];
  attempt_count = 0;
  next_attempt_at = none;
  status = pending;
  created_at = 0;
}

abbrev delivered_before : WebhookDelivery
delivered_before = record delivery { status = delivered }

abbrev product : Product
product = record {
  id = "p1";
  merchant_id = "shop";
  name = "Plan";
  description = none;
  asset_address = "usdc";
  asset_decimals = 2;
  amount = fixed_amount 500;
  max_per_period = 500;
  period_seconds = 100;
  min_interval_seconds = 10;
  max_successful_charges = 0;
  default_duration_seconds = 1000;
  active = true;
  created_at = 0;
}

abbrev session : CheckoutSession
session = record {
  id = "s1";
  merchant_id = "shop";
  product_id = "p1";
  client_reference = none;
  payer_address = some "payer";
  expires_at = 1000;
  status = completed;
  mandate_id = some "m1";
  created_at = 0;
}

abbrev pub world_of : ChargeRequest → WebhookDelivery → World
world_of charge webhook = record {
  charge_requests = charge ∷ [];
  authorizations = [];
  merchants =
      record {
        id = "shop";
        wallet_address = "wallet";
        webhook_url = some "https://shop.example";
        webhook_secret = some "sealed";
      }
      ∷ [];
  products = product ∷ [];
  sessions = session ∷ [];
  mandates = [];
  payments = [];
  refund_requests = [];
  deliveries = webhook ∷ [];
  calls = [];
  posts = [];
  clock = 1000;
  uuids = 0;
}

abbrev pub waiting : ChargeRequest
waiting = charge_at scheduled 0

abbrev pub world : World
world = world_of waiting delivery

pub one_charge : (row : ChargeRequest) → HasUniqueIds (row ∷ [])
unfolding count_where
one_charge row id = ground arith

pub one_delivery : (row : WebhookDelivery) → HasUniqueDeliveries (row ∷ [])
unfolding count_where
one_delivery row id = ground arith

pub found_charge :
    (status : ChargeRequestStatus) (attempts : ℕ)
    → find_charge "c1" (world_of (charge_at status attempts) delivery)
      ≡ some (charge_at status attempts)
unfolding find_where
found_charge status attempts = refl

process_charge_request-Ends_example :
    Ends deps waiting 1 (claimed waiting world) (process_charge_request deps "c1" world)
process_charge_request-Ends_example =
    process_charge_request-Ends deps "c1" world waiting (one_charge waiting)
      (found_charge scheduled 0) (inl refl)

abbrev pub delivery_deps : WebhookDeliveryDeps
delivery_deps = record {
  webhook_encryption_key = "key";
  decrypt_webhook_secret = λ sealed key. some "secret";
  send = λ post. http 503;
  shown = λ n. "503";
}

pub found_delivery :
    (row : WebhookDelivery) → row.id ≡ "d1" → find_delivery "d1" (world_of waiting row) ≡ some row
unfolding find_where
found_delivery row e = rw e

process_webhook_delivery-Ends_example :
    DeliveryEnds delivery_deps delivery 1
      (claimed_delivery delivery world)
      (process_webhook_delivery delivery_deps "d1" world)
process_webhook_delivery-Ends_example =
    process_webhook_delivery-Ends delivery_deps "d1" world delivery (one_delivery delivery)
      (found_delivery delivery refl) (inl refl)
