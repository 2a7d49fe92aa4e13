-- ===== src/Relayer/Soroban/Comparing.antt =====
-- The comparison of a simulated receipt with its request (apps/relayer/src/pipeline.ts, step 5), over the production
-- gateway: which requests an honest contract can satisfy.
use stellar_journey.Base.{
  truthy, ℕ, ◌≡◌, ◌∙◌, refl, sym, ap, String, Bool, true, false, ◌&&◌, Option, none, some, arith,
  str_eq, eq_iff, ◌==◌, ==_iff, List, codes, if◌then◌else◌,
}
use stellar_journey.Base.Effect.{returned}
use stellar_journey.Client.Ids.{id_to_hex, hex_to_id}
use stellar_journey.Client.Ids.Written.{are_lower, id_to_hex-hex_to_id}
use stellar_journey.Client.Bindings.{GenPaymentReceipt, to_domain_payment_receipt}
use stellar_journey.Client.Mandate.{Mandate}
use stellar_journey.Store.{ChargeRequest, World, prepare, log_call}
use stellar_journey.Api.ChargeStatus.{processing}
use stellar_journey.Relayer.Context.{ChargeContext}
use stellar_journey.Relayer.Gateway.{ChargeSubmitResult, LedgerRead, accepted, prepared}
use stellar_journey.Relayer.Pipeline.Outcome.{PipelineDeps, permanent_reason}
use stellar_journey.Relayer.Pipeline.Fail.{fail}
use stellar_journey.Relayer.Pipeline.Settle.{submit_charge}
use stellar_journey.Relayer.Pipeline.Prepare.{
  verification_ok, verified, after_preparation, charge_args, prepare_charge,
}
use stellar_journey.Client.Calls.{
  InvocationArgs, AssembledTransaction, GeneratedClient, invocation_args, charge_with, build_charge,
}
use stellar_journey.Relayer.Soroban.{
  submit_with, simulated, preparation_of, create_soroban_chain_gateway,
}

-- What the contract promises: the receipt of a charge names what was invoked.
pub record Echoes (invocation : InvocationArgs) (receipt : GenPaymentReceipt) : Type 0 where
  pub mandate_id : receipt.mandate_id ≡ invocation.mandate_id
  pub charge_id : receipt.charge_id ≡ invocation.charge_id
  pub amount : receipt.amount ≡ invocation.amount
  pub invoice_hash : receipt.invoice_hash ≡ invocation.invoice_hash

-- The ids of a request are written without capitals.
abbrev pub is_written_lower : ChargeRequest → Bool
is_written_lower row =
    are_lower (codes row.charge_id)
    && are_lower (codes row.mandate_id)
    && are_lower (codes row.invoice_hash)

abbrev pub EchoesCharges : GeneratedClient → Type 0
EchoesCharges client =
    (invocation : InvocationArgs) (entry : Option String) (tx : AssembledTransaction)
    (receipt : GenPaymentReceipt)
    → client.charge invocation entry ≡ some tx
    → tx.result ≡ returned receipt
    → Echoes invocation receipt

invocation_inv :
    (client : GeneratedClient) (entry : Option String) (tx : AssembledTransaction)
    (mandate charge invoice : Option (List ℕ)) (amount : ℕ)
    → charge_with client entry (invocation_args mandate charge amount invoice) ≡ some tx
    → (invocation : InvocationArgs) × ((mandate ≡ some invocation.mandate_id)
        × ((charge ≡ some invocation.charge_id)
            × ((invoice ≡ some invocation.invoice_hash)
                × ((amount ≡ invocation.amount) × (client.charge invocation entry ≡ some tx)))))
invocation_inv client entry tx none charge invoice amount h = ground arith
invocation_inv client entry tx (some m) none invoice amount h = ground arith
invocation_inv client entry tx (some m) (some c) none amount h = ground arith
invocation_inv client entry tx (some m) (some c) (some i) amount h =
    (_, (refl, (refl, (refl, (refl, h)))))

-- A text that is read as the bytes of an id compares equal with what is written of them where it has no capital.
compare_id :
    (text : String) (bytes sent : List ℕ)
    → hex_to_id text ≡ some sent
    → bytes ≡ sent
    → str_eq (id_to_hex bytes) text ≡ are_lower (codes text)
compare_id text bytes sent read same =
    let written = id_to_hex-hex_to_id text bytes (read ∙ ap some (sym same)) in
    bool_eq _ _ (λ h. written.0 ((eq_iff (id_to_hex bytes) text).0 h))
      (λ h. (eq_iff (id_to_hex bytes) text).1 (written.1 h))
  where
    bool_eq : (a b : Bool) → (a ≡ true → b ≡ true) → (b ≡ true → a ≡ true) → a ≡ b
    bool_eq true b f g = sym (f refl)
    bool_eq false true f g = g refl
    bool_eq false false f g = refl

module _ (client : GeneratedClient) (resolve_merchant_signer : Option (String → Option String))
    (ledger : LedgerRead) (honest : EchoesCharges client) (row : ChargeRequest) (attempt_count : ℕ)
    (context : ChargeContext) (deps : PipelineDeps)
    (production : deps.gateway ≡ create_soroban_chain_gateway client resolve_merchant_signer ledger)
    (entry : Option String) (tx : AssembledTransaction) (receipt : GenPaymentReceipt)
    (built : build_charge client
        (truthy entry)
        row.mandate_id
        row.charge_id
        row.amount
        row.invoice_hash
      ≡ some tx)
    (simulation : tx.result ≡ returned receipt)
    (merchant : receipt.merchant ≡ context.merchant_wallet_address)
    (asset : receipt.asset ≡ context.expected_asset_address) where
  compared : verification_ok row context (to_domain_payment_receipt receipt) ≡ is_written_lower row
  unfolding build_charge to_domain_payment_receipt
  compared =
      let (invocation, (m, (c, (i, (a, called))))) =
        invocation_inv client _ tx (hex_to_id row.mandate_id) (hex_to_id row.charge_id)
          (hex_to_id row.invoice_hash) row.amount built in
      let echo = honest invocation _ tx receipt called simulation in
      let amount : (receipt.amount == row.amount) ≡ true = (==_iff _ _).1 (echo.amount ∙ sym a) in
      rw
        (
          (eq_iff receipt.merchant context.merchant_wallet_address).1 merchant,
          (eq_iff receipt.asset context.expected_asset_address).1 asset,
          amount,
          compare_id row.charge_id receipt.charge_id invocation.charge_id c echo.charge_id,
          compare_id row.mandate_id receipt.mandate_id invocation.mandate_id m echo.mandate_id,
          compare_id row.invoice_hash receipt.invoice_hash invocation.invoice_hash i
              echo.invoice_hash,
        )
        refl

  prepared_by_gateway :
      deps.gateway.prepare_charge (charge_args deps row attempt_count entry)
      ≡ prepared (accepted (to_domain_payment_receipt receipt)) (
          submit_with client resolve_merchant_signer ledger tx
            (to_domain_payment_receipt receipt)
            tx.needs_non_invoker_signing_by
            resolve_merchant_signer)
  prepared_by_gateway =
      ap (λ gateway. gateway.prepare_charge (charge_args deps row attempt_count entry)) production
      ∙ ap (preparation_of client resolve_merchant_signer ledger) built
      ∙ ap (simulated client resolve_merchant_signer ledger tx) simulation

  choose :
      (mandate : Mandate) (result : Option ChargeSubmitResult) (ok : Bool) (w : World)
      → verified deps row attempt_count mandate
          (charge_args deps row attempt_count entry)
          result
          ok
          w
        ≡ (if ok
            then submit_charge deps row attempt_count mandate
                (charge_args deps row attempt_count entry)
                result
                w
            else fail deps row attempt_count processing (permanent_reason "SIMULATION_MISMATCH") w)
  unfolding verified
  choose mandate result true w = refl
  choose mandate result false w = refl

  -- Over the production gateway, where every receipt of a charge names the ids and the amount
  -- that were invoked, and a charge is built and simulated with the merchant and the asset of the
  -- merchant's records: the charge goes on to its submission if the three ids of its row are
  -- written without capitals, and if one has a capital, it is failed for good as a simulation
  -- that does not match.
  pub prepare_charge-compared :
      (mandate : Mandate) (w : World)
      → let args = charge_args deps row attempt_count entry in
        let asked = log_call (prepare args) w in
        let result =
          submit_with client resolve_merchant_signer ledger tx
            (to_domain_payment_receipt receipt)
            tx.needs_non_invoker_signing_by
            resolve_merchant_signer in
        prepare_charge deps row attempt_count mandate context entry w ≡ (
          if is_written_lower row
          then submit_charge deps row attempt_count mandate args result asked
          else fail deps row attempt_count processing
              (permanent_reason "SIMULATION_MISMATCH")
              asked)
  unfolding prepare_charge after_preparation
  prepare_charge-compared mandate w =
      let args = charge_args deps row attempt_count entry in
      let result =
        submit_with client resolve_merchant_signer ledger tx (to_domain_payment_receipt receipt)
          tx.needs_non_invoker_signing_by resolve_merchant_signer in
      ap
        (λ p.
          after_preparation deps row attempt_count mandate context args p
            (log_call (prepare args) w))
        prepared_by_gateway
      ∙ choose mandate result (verification_ok row context (to_domain_payment_receipt receipt))
          (log_call (prepare args) w)
      ∙ ap
          (λ ok.
            if ok
            then submit_charge deps row attempt_count mandate args result
                (log_call (prepare args) w)
            else fail deps row attempt_count processing (permanent_reason "SIMULATION_MISMATCH")
                (log_call (prepare args) w))
          compared
