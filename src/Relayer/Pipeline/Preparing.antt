-- ===== src/Relayer/Pipeline/Preparing.antt =====
-- apps/relayer/src/pipeline.ts, steps 2 to 5: a run submits only what it has checked.
use stellar_journey.Base.{ℕ, ◌≡◌, refl, ◌∙◌, inl, String, Bool, true, false, Option, some}
use stellar_journey.Store.{ChargeRequest, ChargeArgs, ChainCall, World, prepare, log_call}
use stellar_journey.Api.ChargeStatus.{processing}
use stellar_journey.Client.Mandate.{Mandate, PaymentReceipt}
use stellar_journey.Relayer.Gateway.{
  ChargeSubmitResult, accepted, refused, mandate_found, Preparation, preparation_failed, prepared,
}
use stellar_journey.Relayer.Context.{ChargeContext, resolve_charge_context}
use stellar_journey.Relayer.Pipeline.Outcome.{PipelineDeps}
use stellar_journey.Relayer.Pipeline.Prepare.{
  verification_ok, charge_args, verified, after_preparation, prepare_charge,
}
use stellar_journey.Relayer.Pipeline.State.{submits, IsAuthorized, Checked, verification_ok-Matches}
use stellar_journey.Relayer.Pipeline.Ends.{at_processing, Ends, Working}
use stellar_journey.Relayer.Pipeline.Failing.{fail-Ends, fail_classified-Ends, log_call-Working}
use stellar_journey.Relayer.Pipeline.Settling.{submit_charge-Ends}

module _ (deps : PipelineDeps) (row : ChargeRequest) (n : ℕ) (base : World) where
  -- A run that has submitted nothing yet.
  pub record Before (w : World) : Type 0 where
    pub working : Working deps row n base processing w
    pub none_yet : submits w.calls ≡ submits base.calls
    pub authorizations : w.authorizations ≡ base.authorizations

  -- What the mandate read and the merchant's records have shown.
  pub record Agreed (mandate : Mandate) (context : ChargeContext) : Type 0 where
    pub read : deps.gateway.get_mandate row.mandate_id ≡ mandate_found mandate
    pub resolved : resolve_charge_context row.merchant_id row.mandate_id base ≡ some context
    pub merchant_agrees : context.merchant_wallet_address ≡ mandate.merchant

  verified-Ends :
      (mandate : Mandate) (args : ChargeArgs) (result : Option ChargeSubmitResult) (ok : Bool)
      (w : World)
      → Before w
      → (ok ≡ true → Checked deps row n base result)
      → Ends deps row n base (verified deps row n mandate args result ok w)
  unfolding verified
  verified-Ends mandate args result true w b checked =
      submit_charge-Ends deps row n base mandate args result w b.working b.none_yet (checked refl)
  verified-Ends mandate args result false w b checked =
      fail-Ends deps row n base processing _ w at_processing b.working

  after_preparation-Ends :
      (mandate : Mandate) (context : ChargeContext) (args : ChargeArgs) (answer : Preparation)
      (w : World)
      → Before w
      → ((receipt : PaymentReceipt) (result : Option ChargeSubmitResult)
          → answer ≡ prepared (accepted receipt) result
          → verification_ok row context receipt ≡ true
          → Checked deps row n base result)
      → Ends deps row n base (after_preparation deps row n mandate context args answer w)
  unfolding after_preparation
  after_preparation-Ends mandate context args preparation_failed w b checked =
      fail-Ends deps row n base processing _ w at_processing b.working
  after_preparation-Ends mandate context args (prepared (refused info) result) w b checked =
      fail_classified-Ends deps row n base processing _ w at_processing b.working
  after_preparation-Ends mandate context args (prepared (accepted receipt) result) w b checked =
      verified-Ends mandate args result (verification_ok row context receipt) w b
        (checked receipt result refl)

  pub log_call-Before :
      (call : ChainCall) (w : World)
      → Before w
      → submits (log_call call w).calls ≡ submits w.calls
      → Before (log_call call w)
  log_call-Before call w b same = record {
    working =
        log_call-Working deps row n base processing call w b.working (inl (same ∙ b.none_yet));
    none_yet = same ∙ b.none_yet;
    authorizations = b.authorizations;
  }

  pub prepare_charge-Ends :
      (mandate : Mandate) (context : ChargeContext) (entry : Option String) (w : World)
      → Before w
      → Agreed mandate context
      → IsAuthorized deps base row.authorization_id entry
      → Ends deps row n base (prepare_charge deps row n mandate context entry w)
  unfolding prepare_charge
  prepare_charge-Ends mandate context entry w b agreed authorized =
      after_preparation-Ends mandate context (charge_args deps row n entry)
        (deps.gateway.prepare_charge (charge_args deps row n entry)) _
        (log_call-Before (prepare (charge_args deps row n entry)) w b refl)
        (λ receipt result simulated ok. record {
          mandate = mandate;
          read = agreed.read;
          context = context;
          resolved = agreed.resolved;
          merchant_agrees = agreed.merchant_agrees;
          entry = entry;
          authorized = authorized;
          receipt = receipt;
          simulated = simulated;
          verified = verification_ok-Matches row context receipt ok;
        })
