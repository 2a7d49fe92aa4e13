-- ===== src/Client/Bindings.antt =====
-- The conversions of packages/contract-client/src/domain.ts between the shapes of the generated client, in which an
-- id is bytes, and those that the other packages see.
use stellar_journey.Base.{ℕ, String, Option, none, some, List}
use stellar_journey.Client.Ids.{id_to_hex, hex_to_id}
use stellar_journey.Client.Mandate.{
  MandateStatus, active, paused, revoked, completed, expired, AmountRule, fixed, variable, Mandate,
  PaymentReceipt,
}

pub data GenMandateStatus : Type 0 where
  tag_active tag_paused tag_revoked tag_completed tag_expired : GenMandateStatus

pub data GenAmountRule : Type 0 where
  tag_fixed tag_variable : ℕ → GenAmountRule

-- An `Option` of the contract, which the SDK gives as undefined or as null where it is absent, is `none` for both.
pub record GenMandate : Type 0 where
  pub id : List ℕ
  pub payer : String
  pub merchant : String
  pub asset : String
  pub status : GenMandateStatus
  pub amount_rule : GenAmountRule
  pub max_per_period : ℕ
  pub period_seconds : ℕ
  pub min_interval_seconds : ℕ
  pub start_at : ℕ
  pub expires_at : ℕ
  pub max_successful_charges : ℕ
  pub successful_charges : ℕ
  pub total_collected : ℕ
  pub current_period_start : ℕ
  pub current_period_collected : ℕ
  pub last_charged_at : Option ℕ
  pub created_at : ℕ
  pub metadata_hash : List ℕ

pub record GenPaymentReceipt : Type 0 where
  pub payment_id : List ℕ
  pub mandate_id : List ℕ
  pub charge_id : List ℕ
  pub payer : String
  pub merchant : String
  pub asset : String
  pub amount : ℕ
  pub invoice_hash : List ℕ
  pub timestamp : ℕ

abbrev pub to_domain_mandate_status : GenMandateStatus → MandateStatus
to_domain_mandate_status tag_active = active
to_domain_mandate_status tag_paused = paused
to_domain_mandate_status tag_revoked = revoked
to_domain_mandate_status tag_completed = completed
to_domain_mandate_status tag_expired = expired

abbrev pub to_domain_amount_rule : GenAmountRule → AmountRule
to_domain_amount_rule (tag_fixed amount) = fixed amount
to_domain_amount_rule (tag_variable max_per_charge) = variable max_per_charge

unfoldable pub to_domain_mandate : GenMandate → Mandate
to_domain_mandate mandate = record {
  id = id_to_hex mandate.id;
  payer = mandate.payer;
  merchant = mandate.merchant;
  asset = mandate.asset;
  status = to_domain_mandate_status mandate.status;
  amount_rule = to_domain_amount_rule mandate.amount_rule;
  max_per_period = mandate.max_per_period;
  period_seconds = mandate.period_seconds;
  min_interval_seconds = mandate.min_interval_seconds;
  start_at = mandate.start_at;
  expires_at = mandate.expires_at;
  max_successful_charges = mandate.max_successful_charges;
  successful_charges = mandate.successful_charges;
  total_collected = mandate.total_collected;
  current_period_start = mandate.current_period_start;
  current_period_collected = mandate.current_period_collected;
  last_charged_at = mandate.last_charged_at;
  created_at = mandate.created_at;
  metadata_hash = id_to_hex mandate.metadata_hash;
}

unfoldable pub to_domain_payment_receipt : GenPaymentReceipt → PaymentReceipt
to_domain_payment_receipt receipt = record {
  payment_id = id_to_hex receipt.payment_id;
  mandate_id = id_to_hex receipt.mandate_id;
  charge_id = id_to_hex receipt.charge_id;
  payer = receipt.payer;
  merchant = receipt.merchant;
  asset = receipt.asset;
  amount = receipt.amount;
  invoice_hash = id_to_hex receipt.invoice_hash;
  timestamp = receipt.timestamp;
}

-- The argument of `create_mandate`.
pub record MandateInput : Type 0 where
  pub payer : String
  pub merchant : String
  pub asset : String
  pub amount_rule : AmountRule
  pub max_per_period : ℕ
  pub period_seconds : ℕ
  pub min_interval_seconds : ℕ
  pub start_at : ℕ
  pub expires_at : ℕ
  pub max_successful_charges : ℕ
  pub metadata_hash : String
  pub client_nonce : String

pub record GenMandateInput : Type 0 where
  pub payer : String
  pub merchant : String
  pub asset : String
  pub amount_rule : GenAmountRule
  pub max_per_period : ℕ
  pub period_seconds : ℕ
  pub min_interval_seconds : ℕ
  pub start_at : ℕ
  pub expires_at : ℕ
  pub max_successful_charges : ℕ
  pub metadata_hash : List ℕ
  pub client_nonce : List ℕ

abbrev pub from_domain_amount_rule : AmountRule → GenAmountRule
from_domain_amount_rule (fixed amount) = tag_fixed amount
from_domain_amount_rule (variable max_per_charge) = tag_variable max_per_charge

abbrev pub input_with : MandateInput → Option (List ℕ) → Option (List ℕ) → Option GenMandateInput
input_with input (some metadata_hash) (some client_nonce) = some (record {
  payer = input.payer;
  merchant = input.merchant;
  asset = input.asset;
  amount_rule = from_domain_amount_rule input.amount_rule;
  max_per_period = input.max_per_period;
  period_seconds = input.period_seconds;
  min_interval_seconds = input.min_interval_seconds;
  start_at = input.start_at;
  expires_at = input.expires_at;
  max_successful_charges = input.max_successful_charges;
  metadata_hash = metadata_hash;
  client_nonce = client_nonce;
})
input_with input _ _ = none

-- `none` where `hexToId` throws.
unfoldable pub from_domain_mandate_input : MandateInput → Option GenMandateInput
from_domain_mandate_input input =
    input_with input (hex_to_id input.metadata_hash) (hex_to_id input.client_nonce)

pub record GenRefundReceipt : Type 0 where
  pub refund_id : List ℕ
  pub payment_id : List ℕ
  pub amount : ℕ
  pub timestamp : ℕ

pub record RefundReceipt : Type 0 where
  pub refund_id : String
  pub payment_id : String
  pub amount : ℕ
  pub timestamp : ℕ

unfoldable pub to_domain_refund_receipt : GenRefundReceipt → RefundReceipt
to_domain_refund_receipt receipt = record {
  refund_id = id_to_hex receipt.refund_id;
  payment_id = id_to_hex receipt.payment_id;
  amount = receipt.amount;
  timestamp = receipt.timestamp;
}
