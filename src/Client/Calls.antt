-- ===== src/Client/Calls.antt =====
-- packages/contract-client/src/client.ts: calls of the contract. The generated client and the transactions of the SDK are
-- parameters: `none` where a call throws.
use stellar_journey.Base.{ℕ, String, Option, none, some, List}
use stellar_journey.Base.Effect.{Result, returned, thrown}
use stellar_journey.Client.Ids.{hex_to_id}
use stellar_journey.Client.Mandate.{Mandate}
use stellar_journey.Client.Bindings.{GenMandate, GenPaymentReceipt, to_domain_mandate}

pub record InvocationArgs : Type 0 where
  pub mandate_id : List ℕ
  pub charge_id : List ℕ
  pub amount : ℕ
  pub invoice_hash : List ℕ

-- A `Result` of the contract is thrown where it is an error, by its name.
pub record SentTransaction : Type 0 where
  pub hash : Option String
  pub result : Result String GenPaymentReceipt
  pub ledger : Option ℕ

-- What `signAndSend` does: it gives the sent transaction, or throws one of the two errors that are told apart, or
-- anything else.
pub data Sending : Type 0 where
  sent : SentTransaction → Sending
  transaction_still_pending send_failed_error other_error : Sending

-- A simulated transaction.
pub record AssembledTransaction : Type 0 where
  pub result : Result String GenPaymentReceipt
  -- Who has to sign besides the relayer, at first and after the entries of an address are signed.
  pub needs_non_invoker_signing_by : List String
  pub after_signing : String → Option (List String)
  -- `signAndSend`, with the address whose entries were signed.
  pub sign_and_send : Option String → Sending

pub record GeneratedClient : Type 0 where
  pub get_mandate : List ℕ → Option (Result String GenMandate)
  pub get_refunded_total : List ℕ → Option ℕ
  -- It throws too where the simulation fails otherwise than by a `Result` of the contract.
  pub charge : InvocationArgs → Option String → Option AssembledTransaction

abbrev pub domain_mandate : Option (Result String GenMandate) → Option (Result String Mandate)
domain_mandate none = none
domain_mandate (some (thrown name)) = some (thrown name)
domain_mandate (some (returned mandate)) = some (returned (to_domain_mandate mandate))

abbrev pub invocation_args :
    Option (List ℕ) → Option (List ℕ) → ℕ → Option (List ℕ) → Option InvocationArgs
invocation_args (some mandate_id) (some charge_id) amount (some invoice_hash) = some (record {
  mandate_id = mandate_id;
  charge_id = charge_id;
  amount = amount;
  invoice_hash = invoice_hash;
})
invocation_args _ _ amount _ = none

abbrev pub with_id : {A : Type 0} → Option (List ℕ) → (List ℕ → Option A) → Option A
with_id none call = none
with_id (some id) call = call id

module _ (client : GeneratedClient) where
  -- What it throws is a `MandateReadError`, by the name of the contract's error, or anything else.
  unfoldable pub get_mandate : String → Option (Result String Mandate)
  get_mandate mandate_id =
      with_id (hex_to_id mandate_id) (λ id. domain_mandate (client.get_mandate id))

  unfoldable pub get_refunded_total : String → Option ℕ
  get_refunded_total payment_id = with_id (hex_to_id payment_id) client.get_refunded_total

  abbrev pub charge_with : Option String → Option InvocationArgs → Option AssembledTransaction
  charge_with entry none = none
  charge_with entry (some invocation) = client.charge invocation entry

  unfoldable pub build_charge :
      Option String → String → String → ℕ → String → Option AssembledTransaction
  build_charge entry mandate_id charge_id amount invoice_hash =
      charge_with entry (
        invocation_args (hex_to_id mandate_id) (hex_to_id charge_id) amount
          (hex_to_id invoice_hash))
