-- ===== src/Relayer/Classify.antt =====
-- apps/relayer/src/classify.ts: which failures are retried.
pub mod Laws
use text.Mathlib.Text.{starts_with}
use stellar_journey.Base.{String, Bool, if◌then◌else◌}
use stellar_journey.Base.Effect.{Result, returned, thrown}
use stellar_journey.Stellar.Errors.{MandateErrorInfo, unknown_prefix, decode_mandate_error_name}

pub data FailureClass : Type 0 where
  permanent transient : FailureClass

pub record ClassifiedFailure : Type 0 where
  pub failure_class : FailureClass
  pub reason : String

pub data InfraTransientReason : Type 0 where
  rpc_unavailable send_failed tx_not_included : InfraTransientReason

abbrev pub reason_text : InfraTransientReason → String
reason_text rpc_unavailable = "RPC_UNAVAILABLE"
reason_text send_failed = "SEND_FAILED"
reason_text tx_not_included = "TX_NOT_INCLUDED"

unfoldable pub classify_infra_failure : InfraTransientReason → ClassifiedFailure
classify_infra_failure reason = record { failure_class = transient; reason = reason_text reason }

-- `UnclassifiableContractError`, with the name that could not be classified.
pub record UnclassifiableContractError : Type 0 where
  pub name : String

abbrev classify_decoded :
    String → MandateErrorInfo → Result UnclassifiableContractError ClassifiedFailure
classify_decoded name info =
    if starts_with info.name unknown_prefix
    then thrown (record { name = name })
    else returned (record {
      failure_class = if info.retryable then transient else permanent;
      reason = info.name;
    })

unfoldable pub classify_contract_error_name :
    String → Result UnclassifiableContractError ClassifiedFailure
classify_contract_error_name name = classify_decoded name (decode_mandate_error_name name)
