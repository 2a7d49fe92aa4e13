-- ===== src/Relayer/Gateway.antt =====
-- apps/relayer/src/chain-gateway.ts: the interface `ChainGateway`. A gateway is its answers, so a
-- theorem over every gateway covers every behaviour of the chain during one run, in which each
-- method is called at most once.
use stellar_journey.Base.{ℕ, String, Option}
use stellar_journey.Stellar.Errors.{MandateErrorInfo}
use stellar_journey.Client.Mandate.{Mandate, PaymentReceipt}
use stellar_journey.Relayer.Classify.{ClassifiedFailure}
use stellar_journey.Store.{ChargeArgs}

pub data ChargeSubmitResult : Type 0 where
  success : PaymentReceipt → String → ℕ → ChargeSubmitResult
  contract_error : MandateErrorInfo → Option String → ChargeSubmitResult
  infra_error : ClassifiedFailure → ChargeSubmitResult

pub data Simulation : Type 0 where
  accepted : PaymentReceipt → Simulation
  refused : MandateErrorInfo → Simulation

-- What `getMandate` does: it resolves, throws a `MandateReadError`, or throws anything else.
pub data MandateRead : Type 0 where
  mandate_found : Mandate → MandateRead
  mandate_read_error : String → MandateRead
  mandate_unavailable : MandateRead

pub data LedgerRead : Type 0 where
  ledger_sequence : ℕ → LedgerRead
  ledger_unavailable : LedgerRead

-- What `prepareCharge` does: it throws, or gives a simulation and the result of `submit()`, which
-- is `none` where that promise rejects.
pub data Preparation : Type 0 where
  preparation_failed : Preparation
  prepared : Simulation → Option ChargeSubmitResult → Preparation

pub record ChainGateway : Type 0 where
  pub get_mandate : String → MandateRead
  -- The method is optional in the interface.
  pub get_latest_ledger_sequence : Option LedgerRead
  pub prepare_charge : ChargeArgs → Preparation
