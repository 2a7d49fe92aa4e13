-- ===== src/Api/Routes/Payments.antt =====
-- apps/api/src/routes/payments.ts: a merchant lists its payments.
use stellar_journey.Base.{
  ℕ, String, Bool, ◌&&◌, ◌||◌, Option, List, map, str_eq, ltb, ◌==◌, truthy, if◌then◌else◌,
}
use stellar_journey.Base.Effect.{throw, gets}
use stellar_journey.Shared.Money.{Units, base_units_to_decimal_string}
use stellar_journey.Store.{Payment, World, Job, Merchant, product_of}
use stellar_journey.Api.Routes.{validation_error, decimals_of}
use stellar_journey.Api.Routes.Listing.{find_many}
use stellar_journey.Api.Routes.Refunds.{matches, or_seven}

pub record PaymentResponse : Type 0 where
  pub payment_id : String
  pub mandate_id : String
  pub charge_id : String
  pub amount : Units
  pub asset_address : String
  pub transaction_hash : String
  pub ledger : ℕ
  pub refunded_total : Units
  pub created_at : ℕ

abbrev pub to_payment_response : Payment → ℕ → PaymentResponse
to_payment_response payment decimals = record {
  payment_id = payment.payment_id;
  mandate_id = payment.mandate_id;
  charge_id = payment.charge_id;
  amount = base_units_to_decimal_string payment.amount decimals;
  asset_address = payment.asset_address;
  transaction_hash = payment.transaction_hash;
  ledger = payment.ledger;
  refunded_total = base_units_to_decimal_string payment.refunded_total decimals;
  created_at = payment.created_at;
}

module _ (merchant : Merchant) where
  abbrev pub is_listed_payment : Option String → Payment → Bool
  is_listed_payment mandate_id row =
      str_eq row.merchant_id merchant.id && matches (truthy mandate_id) row.mandate_id

  -- A payment with the decimals of its product: 7 where they are not known.
  abbrev pub show_payment : World → Payment → PaymentResponse
  show_payment w row =
      to_payment_response row (or_seven (decimals_of (product_of merchant.id row.mandate_id w)))

  unfoldable pub list_payments : Option String → ℕ → Job (List PaymentResponse)
  list_payments mandate_id limit =
      if limit == 0 || ltb 100 limit
      then throw validation_error
      else gets (λ w.
        map (show_payment w)
          (find_many (λ row. row.created_at) (is_listed_payment mandate_id) limit w.payments))
