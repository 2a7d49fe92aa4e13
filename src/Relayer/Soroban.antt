-- ===== src/Relayer/Soroban.antt =====
-- apps/relayer/src/chain-gateway.ts, `createSorobanChainGateway`, with `submitAsRelayer` of
-- packages/stellar/src/submit.ts.
pub mod Comparing
use stellar_journey.Base.{
  ℕ, String, Bool, false, ◌||◌, Option, none, some, List, [], ◌∷◌, str_eq, if◌then◌else◌,
}
use stellar_journey.Base.Effect.{Result, returned, thrown}
use stellar_journey.Stellar.Errors.{decode_mandate_error_name}
use stellar_journey.Client.Ids.{hex_to_id}
use stellar_journey.Client.Bindings.{
  GenMandate, GenPaymentReceipt, to_domain_mandate, to_domain_payment_receipt,
}
use stellar_journey.Client.Mandate.{PaymentReceipt}
use stellar_journey.Store.{ChargeArgs}
use stellar_journey.Relayer.Classify.{
  rpc_unavailable, send_failed, tx_not_included, classify_infra_failure,
}
use stellar_journey.Relayer.Gateway.{
  ChargeSubmitResult, success, contract_error, infra_error, accepted, refused, MandateRead,
  mandate_found, mandate_read_error, mandate_unavailable, LedgerRead, Preparation,
  preparation_failed, prepared, ChainGateway,
}
use stellar_journey.Client.Mandate.{Mandate}
use stellar_journey.Client.Calls.{
  SentTransaction, Sending, sent, transaction_still_pending, send_failed_error, other_error,
  AssembledTransaction, GeneratedClient, get_mandate, build_charge,
}

-- A `MandateReadError` is told apart from what else `getMandate` throws.
abbrev pub mandate_read : Option (Result String Mandate) → MandateRead
mandate_read none = mandate_unavailable
mandate_read (some (thrown name)) = mandate_read_error name
mandate_read (some (returned mandate)) = mandate_found mandate

abbrev pub includes : String → List String → Bool
includes key keys = any keys
  where
    any : List String → Bool
    any [] = false
    any (x ∷ xs) = str_eq x key || any xs

-- The address whose entries `submitAsRelayer` signs.
abbrev pub signing_as : AssembledTransaction → Option String → Option String
signing_as tx none = none
signing_as tx (some public_key) =
    if includes public_key tx.needs_non_invoker_signing_by then some public_key else none

abbrev pub remaining : AssembledTransaction → Option String → Option (List String)
remaining tx none = some tx.needs_non_invoker_signing_by
remaining tx (some public_key) = tx.after_signing public_key

abbrev pub send_unless : AssembledTransaction → Option String → Option (List String) → Sending
send_unless tx signed (some []) = tx.sign_and_send signed
send_unless tx signed _ = other_error

abbrev pub submit_signed : AssembledTransaction → Option String → Sending
submit_signed tx signed = send_unless tx signed (remaining tx signed)

abbrev pub if_simulated :
    AssembledTransaction → Option String → Result String GenPaymentReceipt → Sending
if_simulated tx signer (thrown name) = other_error
if_simulated tx signer (returned receipt) = submit_signed tx (signing_as tx signer)

unfoldable pub submit_as_relayer : AssembledTransaction → Option String → Sending
submit_as_relayer tx signer = if_simulated tx signer tx.result

abbrev pub ledger_or_zero : Option ℕ → ℕ
ledger_or_zero none = 0
ledger_or_zero (some n) = n

abbrev pub hash_or_empty : Option String → String
hash_or_empty none = ""
hash_or_empty (some s) = s

abbrev pub result_of : SentTransaction → Result String GenPaymentReceipt → ChargeSubmitResult
result_of tx (thrown name) = contract_error (decode_mandate_error_name name) tx.hash
result_of tx (returned receipt) =
    success (to_domain_payment_receipt receipt) (hash_or_empty tx.hash) (ledger_or_zero tx.ledger)

abbrev pub submit_result : Sending → ChargeSubmitResult
submit_result (sent tx) = result_of tx tx.result
submit_result transaction_still_pending = infra_error (classify_infra_failure tx_not_included)
submit_result send_failed_error = infra_error (classify_infra_failure send_failed)
submit_result other_error = infra_error (classify_infra_failure rpc_unavailable)

module _ (client : GeneratedClient) where
  -- `resolveMerchantSigner`, which production leaves undefined; it may throw.
  module _ (resolve_merchant_signer : Option (String → Option String)) (ledger : LedgerRead) where
    abbrev pub submit_with :
        AssembledTransaction
        → PaymentReceipt
        → List String
        → Option (String → Option String)
        → Option ChargeSubmitResult
    submit_with tx receipt (x ∷ outstanding) (some resolve) = resolved (resolve receipt.merchant)
      where
        resolved : Option String → Option ChargeSubmitResult
        resolved none = none
        resolved (some signer) = some (submit_result (submit_as_relayer tx (some signer)))
    submit_with tx receipt outstanding _ = some (submit_result (submit_as_relayer tx none))

    abbrev pub simulated : AssembledTransaction → Result String GenPaymentReceipt → Preparation
    simulated tx (thrown name) = prepared (refused (decode_mandate_error_name name)) none
    simulated tx (returned receipt) = prepared (accepted (to_domain_payment_receipt receipt)) (
        submit_with tx (to_domain_payment_receipt receipt) tx.needs_non_invoker_signing_by
          resolve_merchant_signer)

    abbrev pub preparation_of : Option AssembledTransaction → Preparation
    preparation_of none = preparation_failed
    preparation_of (some tx) = simulated tx tx.result

    abbrev pub create_soroban_chain_gateway : ChainGateway
    create_soroban_chain_gateway = record {
      get_mandate = λ mandate_id. mandate_read (get_mandate client mandate_id);
      get_latest_ledger_sequence = some ledger;
      prepare_charge = λ args. preparation_of (
          build_charge client args.signed_authorization_entry_xdr args.mandate_id args.charge_id
            args.amount args.invoice_hash);
    }
