-- ===== src/Relayer/Tests/Comparing.antt =====
-- A charge whose invoice hash was given with a capital digit, over the production gateway and an honest contract.
use stellar_journey.Base.{
  ℕ, ◌≡◌, refl, sym, subst, false, Option, none, some, List, [], arith, if◌then◌else◌,
}
use stellar_journey.Base.Effect.{returned}
use stellar_journey.Base.Fallible.{returned_inj}
use stellar_journey.Client.Ids.{hex_to_id}
use stellar_journey.Client.Ids.Written.{are_lower}
use stellar_journey.Client.Bindings.{GenPaymentReceipt, to_domain_payment_receipt}
use stellar_journey.Store.{ChargeRequest, World, prepare, log_call}
use stellar_journey.Stellar.Tests.{some_id}
use stellar_journey.Api.ChargeStatus.{processing}
use stellar_journey.Relayer.Gateway.{ledger_sequence}
use stellar_journey.Relayer.Context.{ChargeContext}
use stellar_journey.Relayer.Pipeline.Outcome.{PipelineDeps, permanent_reason}
use stellar_journey.Relayer.Pipeline.Fail.{fail}
use stellar_journey.Relayer.Pipeline.Settle.{submit_charge}
use stellar_journey.Relayer.Pipeline.Prepare.{charge_args, prepare_charge}
use stellar_journey.Client.Calls.{
  InvocationArgs, AssembledTransaction, transaction_still_pending, GeneratedClient, build_charge,
}
use stellar_journey.Relayer.Soroban.{submit_with, create_soroban_chain_gateway}
use stellar_journey.Relayer.Soroban.Comparing.{
  Echoes, EchoesCharges, is_written_lower, prepare_charge-compared,
}
use stellar_journey.Relayer.Tests.{charge_at, mandate, world_of, delivery}

abbrev echo : InvocationArgs → GenPaymentReceipt
echo invocation = record {
  payment_id = [];
  mandate_id = invocation.mandate_id;
  charge_id = invocation.charge_id;
  payer = "payer";
  merchant = "wallet";
  asset = "usdc";
  amount = invocation.amount;
  invoice_hash = invocation.invoice_hash;
  timestamp = 5;
}

abbrev transaction : InvocationArgs → AssembledTransaction
transaction invocation = record {
  result = returned (echo invocation);
  needs_non_invoker_signing_by = [];
  after_signing = λ public_key. none;
  sign_and_send = λ signed. transaction_still_pending;
}

abbrev client : GeneratedClient
client = record {
  get_mandate = λ id. none;
  get_refunded_total = λ id. none;
  charge = λ invocation entry. some (transaction invocation);
}

some_inj : {A : Type 0} {a b : A} → some a ≡ some b → a ≡ b
some_inj h = ground arith

honest : EchoesCharges client
honest invocation entry tx receipt h e =
    let same : transaction invocation ≡ tx = some_inj h in
    let shown : echo invocation ≡ receipt =
      returned_inj (subst (λ t. t.result ≡ returned receipt) (sym same) e) in
    subst (Echoes invocation) shown
      (record { mandate_id = refl; charge_id = refl; amount = refl; invoice_hash = refl })

abbrev row : ChargeRequest
row = record (charge_at processing 1) {
  mandate_id = "00000000000000000000000000000000000000000000000000000000000000a1";
  charge_id = "00000000000000000000000000000000000000000000000000000000000000af";
  invoice_hash = some_id;
}

abbrev deps : PipelineDeps
deps = record {
  gateway = create_soroban_chain_gateway client none (ledger_sequence 9);
  authorization_encryption_key = none;
  decrypt_charge_authorization = λ ciphertext key. none;
  uuid = λ n. "uuid";
}

abbrev context : ChargeContext
context = record { merchant_wallet_address = "wallet"; expected_asset_address = "usdc" }

abbrev bytes : Option (List ℕ) → List ℕ
bytes none = []
bytes (some id) = id

abbrev invocation : InvocationArgs
invocation = record {
  mandate_id = bytes (hex_to_id row.mandate_id);
  charge_id = bytes (hex_to_id row.charge_id);
  amount = row.amount;
  invoice_hash = bytes (hex_to_id row.invoice_hash);
}

built :
    build_charge client (some "signed") row.mandate_id row.charge_id row.amount row.invoice_hash
    ≡ some (transaction invocation)
unfolding build_charge hex_to_id stellar_journey.Shared.HexId.hex_id32
    stellar_journey.Shared.HexId.hex_digits
built = refl

capital : is_written_lower row ≡ false
unfolding are_lower
capital = refl

abbrev store : World
store = world_of (charge_at processing 1) delivery

prepare_charge-compared_example :
    let args = charge_args deps row 1 (some "signed") in
    let asked = log_call (prepare args) store in
    let receipt = to_domain_payment_receipt (echo invocation) in
    prepare_charge deps row 1 mandate context (some "signed") store ≡ (
      if is_written_lower row
      then submit_charge deps row 1 mandate args
          (submit_with client none (ledger_sequence 9) (transaction invocation) receipt [] none)
          asked
      else fail deps row 1 processing (permanent_reason "SIMULATION_MISMATCH") asked)
prepare_charge-compared_example =
    prepare_charge-compared client none (ledger_sequence 9) honest row 1 context deps refl
      (some "signed") (transaction invocation) (echo invocation) built refl refl refl mandate store
