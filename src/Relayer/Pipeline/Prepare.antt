-- ===== src/Relayer/Pipeline/Prepare.antt =====
-- apps/relayer/src/pipeline.ts, steps 3 to 5: the simulation, and the test of its receipt.
use stellar_journey.Base.{ℕ, String, Bool, true, false, ◌&&◌, Option, str_eq, ◌==◌, truthy}
use stellar_journey.Base.Effect.{◌>>◌, modify}
use stellar_journey.Store.{ChargeRequest, ChargeArgs, prepare, Job, log_call}
use stellar_journey.Api.ChargeStatus.{processing}
use stellar_journey.Client.Mandate.{Mandate, PaymentReceipt}
use stellar_journey.Relayer.Classify.{classify_contract_error_name}
use stellar_journey.Relayer.Gateway.{
  ChargeSubmitResult, accepted, refused, Preparation, preparation_failed, prepared,
}
use stellar_journey.Relayer.Context.{ChargeContext}
use stellar_journey.Relayer.Pipeline.Outcome.{
  PipelineDeps, PipelineOutcome, permanent_reason, rpc_unavailable_failure,
}
use stellar_journey.Relayer.Pipeline.Fail.{fail, fail_classified}
use stellar_journey.Relayer.Pipeline.Settle.{submit_charge}

abbrev pub verification_ok : ChargeRequest → ChargeContext → PaymentReceipt → Bool
verification_ok row context receipt =
    str_eq receipt.merchant context.merchant_wallet_address
    && str_eq receipt.asset context.expected_asset_address
    && receipt.amount == row.amount
    && str_eq receipt.charge_id row.charge_id
    && str_eq receipt.mandate_id row.mandate_id
    && str_eq receipt.invoice_hash row.invoice_hash

module _ (deps : PipelineDeps) (row : ChargeRequest) (attempt_count : ℕ) where
  -- Step 5, and the exit where the simulation does not match.
  unfoldable pub verified :
      Mandate → ChargeArgs → Option ChargeSubmitResult → Bool → Job PipelineOutcome
  verified mandate args result true = submit_charge deps row attempt_count mandate args result
  verified mandate args result false =
      fail deps row attempt_count processing (permanent_reason "SIMULATION_MISMATCH")

  unfoldable pub after_preparation :
      Mandate → ChargeContext → ChargeArgs → Preparation → Job PipelineOutcome
  after_preparation mandate context args preparation_failed =
      fail deps row attempt_count processing rpc_unavailable_failure
  after_preparation mandate context args (prepared (refused info) result) =
      fail_classified deps row attempt_count processing (classify_contract_error_name info.name)
  after_preparation mandate context args (prepared (accepted receipt) result) =
      verified mandate args result (verification_ok row context receipt)

  abbrev pub charge_args : Option String → ChargeArgs
  charge_args entry = record {
    mandate_id = row.mandate_id;
    charge_id = row.charge_id;
    amount = row.amount;
    invoice_hash = row.invoice_hash;
    signed_authorization_entry_xdr = truthy entry;
  }

  unfoldable pub prepare_charge : Mandate → ChargeContext → Option String → Job PipelineOutcome
  prepare_charge mandate context entry = do
    let args = charge_args entry
    modify (log_call (prepare args))
    after_preparation mandate context args (deps.gateway.prepare_charge args)
