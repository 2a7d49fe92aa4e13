-- ===== src/Client/Mandate.antt =====
-- packages/contract-client/src/domain.ts: mandates and receipts as the other packages see them.
-- Amounts and timestamps are the contract's non-negative integers.
use stellar_journey.Base.{ℕ, String, Option}

pub data MandateStatus : Type 0 where
  active paused revoked completed expired : MandateStatus

pub data AmountRule : Type 0 where
  fixed variable : ℕ → AmountRule

pub record Mandate : Type 0 where
  pub id : String
  pub payer : String
  pub merchant : String
  pub asset : String
  pub status : MandateStatus
  pub amount_rule : AmountRule
  pub max_per_period : ℕ
  pub period_seconds : ℕ
  pub min_interval_seconds : ℕ
  pub start_at : ℕ
  pub expires_at : ℕ
  pub max_successful_charges : ℕ
  pub successful_charges : ℕ
  pub total_collected : ℕ
  pub current_period_start : ℕ
  pub current_period_collected : ℕ
  pub last_charged_at : Option ℕ
  pub created_at : ℕ
  pub metadata_hash : String

pub record PaymentReceipt : Type 0 where
  pub payment_id : String
  pub mandate_id : String
  pub charge_id : String
  pub payer : String
  pub merchant : String
  pub asset : String
  pub amount : ℕ
  pub invoice_hash : String
  pub timestamp : ℕ
