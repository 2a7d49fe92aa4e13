-- ===== src/Api/Tests/Charging.antt =====
-- The authorization of a charge (apps/api/src/routes/charges.ts) on a small store.
use stellar_journey.Base.{
  ℕ, ◌≤◌, ◌<◌, ◌≡◌, ◌⊎◌, inl, inr, refl, String, Bool, true, false, Option, none, some, List, [],
  ◌∷◌, arith, codes, find_where,
}
use stellar_journey.Base.Effect.{Result, returned}
use stellar_journey.Client.Mandate.{active, fixed, Mandate}
use stellar_journey.Stellar.Tests.{sdk, some_id}
use stellar_journey.Store.{
  Product, fixed_amount, CheckoutSession, completed, ChargeAuthorization, pending_signature,
  Merchant, World, Fault,
}
use stellar_journey.Api.Idempotency.{IdempotencyKey, IdempotentOutcome}
use stellar_journey.Api.Routes.{mandate_found}
use stellar_journey.Api.Routes.Charges.{
  ChargeDeps, CreateCharge, ChargeRequestResponse, is_authorization_of, to_charge_request_response,
}
use stellar_journey.Api.Routes.Charges.Issue.{issue_charge_authorization}
use stellar_journey.Api.Routes.Charges.Complete.{
  complete_charge_authorization, bad_size, request_row,
}
use stellar_journey.Api.Routes.Charges.Completing.{
  AnsweredBefore, QueuedNow, complete_charge_authorization_lem, completed_again,
}

abbrev pub mandate : Mandate
mandate = record {
  id = some_id;
  payer = "payer";
  merchant = "wallet";
  asset = "usdc";
  status = active;
  amount_rule = fixed 500;
  max_per_period = 500;
  period_seconds = 100;
  min_interval_seconds = 10;
  start_at = 0;
  expires_at = 1000;
  max_successful_charges = 0;
  successful_charges = 0;
  total_collected = 0;
  current_period_start = 0;
  current_period_collected = 0;
  last_charged_at = none;
  created_at = 0;
  metadata_hash = "";
}

abbrev pub merchant : Merchant
merchant = record {
  id = "shop";
  wallet_address = "wallet";
  webhook_url = none;
  webhook_secret = none;
}

abbrev pub charge_deps : ChargeDeps
charge_deps = record {
  reader = record {
    get_mandate = λ id. mandate_found mandate;
    get_refunded_total = λ id. some 0;
    get_latest_ledger_sequence = some 100;
  };
  sdk = sdk;
  contract_id = "contract";
  network_passphrase = "network";
  parse_date = λ text. none;
  random_hex_id = λ n. some_id;
  uuid = λ n. "uuid";
  preimage_xdr = λ unsigned passphrase. some "preimage";
  encrypt = λ signed. some "sealed";
  print = λ issued. "{}";
}

abbrev pub product : Product
product = record {
  id = "p1";
  merchant_id = "shop";
  name = "Plan";
  description = none;
  asset_address = "usdc";
  asset_decimals = 2;
  amount = fixed_amount 500;
  max_per_period = 500;
  period_seconds = 100;
  min_interval_seconds = 10;
  max_successful_charges = 0;
  default_duration_seconds = 1000;
  active = true;
  created_at = 0;
}

abbrev pub session : CheckoutSession
session = record {
  id = "s1";
  merchant_id = "shop";
  product_id = "p1";
  client_reference = none;
  payer_address = some "payer";
  expires_at = 100000;
  status = completed;
  mandate_id = some some_id;
  created_at = 0;
}

-- An authorization that waits for its signature.
abbrev pub authorization : ChargeAuthorization
authorization = record {
  id = "a1";
  merchant_id = "shop";
  mandate_id = some_id;
  charge_id = some_id;
  amount = 500;
  invoice_hash = some_id;
  scheduled_for = 50000;
  network_passphrase = "network";
  contract_id = "contract";
  unsigned_entry_xdr = "unsigned";
  signed_entry_ciphertext = none;
  signature_expiration_ledger = 900;
  status = pending_signature;
  consumed_at = none;
}

abbrev pub world : World
world = record {
  charge_requests = [];
  authorizations = authorization ∷ [];
  merchants = merchant ∷ [];
  products = product ∷ [];
  sessions = session ∷ [];
  mandates = [];
  payments = [];
  refund_requests = [];
  deliveries = [];
  calls = [];
  posts = [];
  clock = 50000;
  uuids = 0;
}

-- The store and the answer after the completion.
abbrev pub after : World
after = (complete_charge_authorization charge_deps merchant "a1" "signed" world).1

abbrev pub queued_charge : ChargeRequestResponse
queued_charge =
    to_charge_request_response (request_row charge_deps merchant "uuid" 50000 authorization) 2

pub completes :
    complete_charge_authorization charge_deps merchant "a1" "signed" world
    ≡ (returned (201, queued_charge), after)
unfolding complete_charge_authorization find_where
    stellar_journey.Api.Routes.Charges.Complete.complete_pending
    stellar_journey.Api.Routes.Charges.Complete.complete_at
    stellar_journey.Stellar.Authorization.validate_charge_authorization
    stellar_journey.Stellar.Authorization.check_entry
    stellar_journey.Stellar.Authorization.check_expiration
    stellar_journey.Stellar.Authorization.check_invocation
    stellar_journey.Stellar.Authorization.build_charge_authorization_invocation
    stellar_journey.Shared.HexId.hex_id32 stellar_journey.Shared.HexId.hex_digits
    stellar_journey.Stellar.Authorization.check_signature
    stellar_journey.Api.Routes.Charges.Complete.complete_valid
    stellar_journey.Api.Routes.Charges.Complete.queue_charge stellar_journey.Base.count_where
    stellar_journey.Api.Routes.Charges.Complete.create_request
completes = refl

pub found_authorization :
    find_where (is_authorization_of "shop" "a1") world.authorizations ≡ some authorization
unfolding find_where
found_authorization = refl

complete_charge_authorization_lem_example :
    (found : ChargeAuthorization) × (find_where
        (is_authorization_of "shop" "a1")
        world.authorizations
      ≡ some found)
    × (AnsweredBefore charge_deps merchant found world after 201 queued_charge
        ⊎ QueuedNow charge_deps merchant "signed" found world after 201 queued_charge)
complete_charge_authorization_lem_example =
    complete_charge_authorization_lem charge_deps merchant "a1" "signed" world after 201
      queued_charge completes

completed_again_example :
    complete_charge_authorization charge_deps merchant "a1" "another" after
    ≡ (returned (200, queued_charge), after)
completed_again_example =
    completed_again charge_deps merchant "a1" "signed" "another" world after queued_charge refl
      completes

abbrev new_charge : CreateCharge
new_charge = record { amount = codes "5"; invoice_hash = some_id; scheduled_for = none }

abbrev run : Result Fault IdempotentOutcome × (World × List IdempotencyKey)
run =
    issue_charge_authorization charge_deps merchant (some "k") "hash" some_id new_charge
      (world_before, [])
  where
    world_before : World
    world_before = record world { authorizations = [] }

abbrev created : IdempotentOutcome
created = record { replayed = false; status = 201; body = "{}" }
