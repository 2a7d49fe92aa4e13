-- ===== src/System/Tests.antt =====
-- One charge from its authorization to its payment, on a small store.
use stellar_journey.Base.{
  ℕ, ◌+◌, ◌≤◌, ◌≡◌, ◌⊎◌, inl, inr, refl, String, Bool, true, false, Option, none, some, List, [],
  ◌∷◌, arith, count_where, find_where, if◌then◌else◌,
}
use stellar_journey.Client.Mandate.{PaymentReceipt}
use stellar_journey.Store.{World, find_charge}
use stellar_journey.Store.Charges.{HasUniqueIds}
use stellar_journey.Stellar.Tests.{some_id}
use stellar_journey.Api.Routes.Charges.Complete.{complete_charge_authorization}
use stellar_journey.Api.Tests.Charging.{charge_deps, merchant, mandate, world}
use stellar_journey.Relayer.Gateway.{accepted, success, mandate_found, prepared, ledger_sequence}
use stellar_journey.Relayer.Pipeline.Outcome.{PipelineDeps}
use stellar_journey.Relayer.Pipeline.Process.{process_charge_request}
use stellar_journey.Relayer.Scheduler.{recover_stale_pre_submission_charges}
use stellar_journey.System.{
  Phase, absent, paid, phase_of, IsFinal, payments_due, payments_for, Advances,
}
use stellar_journey.System.Running.{
  Runs, here, next, completes, works, recovers, Runs-Advances, IsConsistent, Runs-IsConsistent,
  settled_once,
}

abbrev receipt : PaymentReceipt
receipt = record {
  payment_id = "p1";
  mandate_id = some_id;
  charge_id = some_id;
  payer = "payer";
  merchant = "wallet";
  asset = "usdc";
  amount = 500;
  invoice_hash = some_id;
  timestamp = 5;
}

-- A chain that accepts the charge.
abbrev deps : PipelineDeps
deps = record {
  gateway = record {
    get_mandate = λ id. mandate_found mandate;
    get_latest_ledger_sequence = some (ledger_sequence 200);
    prepare_charge = λ args. prepared (accepted receipt) (some (success receipt "hash" 7));
  };
  authorization_encryption_key = some "key";
  decrypt_charge_authorization = λ ciphertext key. some "signed";
  uuid = λ n. "uuid";
}

abbrev queued : World
queued = (complete_charge_authorization charge_deps merchant "a1" "signed" world).1

abbrev recovered : World
recovered = (recover_stale_pre_submission_charges 60000 600000 queued).1

abbrev charged : World
charged = (process_charge_request deps "uuid" recovered).1

runs : Runs world charged
runs =
    next
      (next (next here (completes charge_deps merchant "a1" "signed" refl))
        (recovers 60000 600000 refl))
      (works deps "uuid" refl)

no_charges : HasUniqueIds world.charge_requests
unfolding count_where
no_charges id = omega arith

is_charged : (phase_of (find_charge "uuid" charged) ≡ paid) × (payments_for "uuid" charged ≡ 1)
unfolding phase_of find_where process_charge_request recover_stale_pre_submission_charges
    stellar_journey.Base.update_where complete_charge_authorization
    stellar_journey.Api.Routes.Charges.Complete.complete_pending
    stellar_journey.Api.Routes.Charges.Complete.complete_at
    stellar_journey.Stellar.Authorization.validate_charge_authorization
    stellar_journey.Stellar.Authorization.check_entry
    stellar_journey.Stellar.Authorization.check_expiration
    stellar_journey.Stellar.Authorization.check_invocation
    stellar_journey.Stellar.Authorization.build_charge_authorization_invocation
    stellar_journey.Shared.HexId.hex_id32 stellar_journey.Shared.HexId.hex_digits
    stellar_journey.Stellar.Authorization.check_signature
    stellar_journey.Api.Routes.Charges.Complete.complete_valid
    stellar_journey.Api.Routes.Charges.Complete.queue_charge
    stellar_journey.Api.ChargeStatus.Transition.assert_legal
    stellar_journey.Api.ChargeStatus.Transition.transition
    stellar_journey.Api.Routes.Charges.Complete.create_request
    stellar_journey.Api.Routes.Charges.to_charge_request_response count_where
    stellar_journey.Relayer.Classify.classify_contract_error_name
    stellar_journey.Relayer.Context.resolve_charge_context
    stellar_journey.Relayer.Pipeline.Authorize.after_decryption
    stellar_journey.Relayer.Pipeline.Authorize.after_ledger_read
    stellar_journey.Relayer.Pipeline.Authorize.authorize
    stellar_journey.Relayer.Pipeline.Authorize.check_expiry
    stellar_journey.Relayer.Pipeline.Authorize.load_authorization
    stellar_journey.Relayer.Pipeline.Authorize.read_ledger_if_offered
    stellar_journey.Relayer.Pipeline.Fail.fail stellar_journey.Relayer.Pipeline.Fail.fail_classified
    stellar_journey.Relayer.Pipeline.Fail.fail_with
    stellar_journey.Relayer.Pipeline.Prepare.after_preparation
    stellar_journey.Relayer.Pipeline.Prepare.prepare_charge
    stellar_journey.Relayer.Pipeline.Prepare.verified
    stellar_journey.Relayer.Pipeline.Process.after_context
    stellar_journey.Relayer.Pipeline.Process.after_mandate_read
    stellar_journey.Relayer.Pipeline.Process.check_merchant
    stellar_journey.Relayer.Pipeline.Process.claim
    stellar_journey.Relayer.Pipeline.Process.run_claimed
    stellar_journey.Relayer.Pipeline.Settle.announce_completion
    stellar_journey.Relayer.Pipeline.Settle.announce_success
    stellar_journey.Relayer.Pipeline.Settle.consume_authorization
    stellar_journey.Relayer.Pipeline.Settle.keep_hash
    stellar_journey.Relayer.Pipeline.Settle.record_success
    stellar_journey.Relayer.Pipeline.Settle.settle_submission
    stellar_journey.Relayer.Pipeline.Settle.submit_charge
    stellar_journey.Relayer.Pipeline.Writes.create_payment
    stellar_journey.Relayer.Pipeline.Writes.update_authorization
    stellar_journey.Relayer.Pipeline.Writes.update_transaction_hash
    stellar_journey.Relayer.Retry.next_retry_at
    stellar_journey.Relayer.Webhook.enqueue_charge_webhook
    stellar_journey.Shared.Money.base_units_to_decimal_string
    stellar_journey.Shared.Money.digits_before stellar_journey.Shared.Money.drop
    stellar_journey.Shared.Money.take stellar_journey.Shared.Money.zeros
    stellar_journey.Stellar.Errors.by_name stellar_journey.Stellar.Errors.decode_mandate_error_name
    stellar_journey.Stellar.Errors.unknown_name stellar_journey.System.phase_of_status
is_charged = (refl, refl)

Runs-Advances_example : Advances world charged
Runs-Advances_example = Runs-Advances world charged no_charges runs

empty : IsConsistent world
unfolding count_where find_where phase_of payments_due
empty = record { unique = no_charges; settled = λ id. refl }

Runs-IsConsistent_example : IsConsistent charged
Runs-IsConsistent_example = Runs-IsConsistent world charged empty runs

one_charge : HasUniqueIds charged.charge_requests
one_charge = (Runs-Advances world charged no_charges runs).unique

abbrev charged_again : World
charged_again = (process_charge_request deps "uuid" charged).1

runs_again : Runs charged charged_again
runs_again = next here (works deps "uuid" refl)

settled_once_example :
    (phase_of (find_charge "uuid" charged_again) ≡ phase_of (find_charge "uuid" charged))
    × (payments_for "uuid" charged_again ≡ payments_for "uuid" charged)
settled_once_example =
    settled_once charged charged_again "uuid" one_charge (inl is_charged.0) runs_again
