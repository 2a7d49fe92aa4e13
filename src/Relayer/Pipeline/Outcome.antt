-- ===== src/Relayer/Pipeline/Outcome.antt =====
-- apps/relayer/src/pipeline.ts: what a run is given, and how it ends.
use stellar_journey.Base.{ℕ, String, Option}
use stellar_journey.Relayer.Classify.{permanent, transient, ClassifiedFailure}
use stellar_journey.Relayer.Gateway.{ChainGateway}

pub record PipelineDeps : Type 0 where
  pub gateway : ChainGateway
  pub authorization_encryption_key : Option String
  -- `decryptChargeAuthorization`, with `none` where it throws.
  pub decrypt_charge_authorization : String → String → Option String
  pub uuid : ℕ → String

pub data PipelineOutcome : Type 0 where
  skipped_not_claimable : PipelineOutcome
  succeeded : String → String → PipelineOutcome
  retry_scheduled : ℕ → String → PipelineOutcome
  permanently_failed : String → PipelineOutcome

abbrev pub permanent_reason : String → ClassifiedFailure
permanent_reason reason = record { failure_class = permanent; reason = reason }

abbrev pub rpc_unavailable_failure : ClassifiedFailure
rpc_unavailable_failure = record { failure_class = transient; reason = "RPC_UNAVAILABLE" }
