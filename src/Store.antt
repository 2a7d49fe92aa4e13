-- ===== src/Store.antt =====
-- The database that the API and the relayer share, and what a run does outside it: the tables of
-- prisma/schema.prisma as lists of rows, the calls to the chain and the webhook requests as logs,
-- the clock, and the supply of random ids. Times are milliseconds since the epoch. An amount is the
-- number that its column's digits stand for.
pub mod Charges
use stellar_journey.Base.{
  ℕ, suc, String, Bool, false, ◌&&◌, Option, none, some, List, [], ◌∷◌, str_eq, find_where, truthy,
}
use stellar_journey.Base.Effect.{Result, Run}
use stellar_journey.Api.ChargeStatus.{ChargeRequestStatus}
use stellar_journey.Api.DeliveryStatus.{WebhookDeliveryStatus, pending}

pub record ChargeRequest : Type 0 where
  pub id : String
  pub merchant_id : String
  pub mandate_id : String
  pub charge_id : String
  pub amount : ℕ
  pub invoice_hash : String
  pub scheduled_for : ℕ
  pub status : ChargeRequestStatus
  pub attempt_count : ℕ
  pub failure_code : Option String
  pub transaction_hash : Option String
  pub next_attempt_at : Option ℕ
  pub authorization_id : Option String
  pub created_at : ℕ
  pub updated_at : ℕ

pub data AuthorizationStatus : Type 0 where
  pending_signature ready expired consumed : AuthorizationStatus

pub record ChargeAuthorization : Type 0 where
  pub id : String
  pub merchant_id : String
  pub mandate_id : String
  pub charge_id : String
  pub amount : ℕ
  pub invoice_hash : String
  pub scheduled_for : ℕ
  pub network_passphrase : String
  pub contract_id : String
  pub unsigned_entry_xdr : String
  pub signed_entry_ciphertext : Option String
  pub signature_expiration_ledger : ℕ
  pub status : AuthorizationStatus
  pub consumed_at : Option ℕ

pub record Merchant : Type 0 where
  pub id : String
  pub wallet_address : String
  pub webhook_url : Option String
  pub webhook_secret : Option String

-- `fixedAmount` and `maxPerCharge`, of which `amountType` says the one that is set.
pub data ProductAmount : Type 0 where
  fixed_amount max_per_charge : ℕ → ProductAmount

pub record Product : Type 0 where
  pub id : String
  pub merchant_id : String
  pub name : String
  pub description : Option String
  pub asset_address : String
  pub asset_decimals : ℕ
  pub amount : ProductAmount
  pub max_per_period : ℕ
  pub period_seconds : ℕ
  pub min_interval_seconds : ℕ
  pub max_successful_charges : ℕ
  pub default_duration_seconds : ℕ
  pub active : Bool
  pub created_at : ℕ

pub data CheckoutSessionStatus : Type 0 where
  open_session completed lapsed canceled : CheckoutSessionStatus

pub record CheckoutSession : Type 0 where
  pub id : String
  pub merchant_id : String
  pub product_id : String
  pub client_reference : Option String
  pub payer_address : Option String
  pub expires_at : ℕ
  pub status : CheckoutSessionStatus
  pub mandate_id : Option String
  pub created_at : ℕ

-- A row of `MandateIndex`.
pub record MandateRow : Type 0 where
  pub mandate_id : String
  pub merchant_id : String
  pub payer_address : String
  pub merchant_address : String
  pub asset_address : String
  pub status : String
  pub contract_state_version : ℕ
  pub last_indexed_ledger : Option ℕ
  pub last_indexed_at : Option ℕ
  pub created_at : ℕ

pub record Payment : Type 0 where
  pub payment_id : String
  pub merchant_id : String
  pub mandate_id : String
  pub charge_id : String
  pub charge_request_id : String
  pub amount : ℕ
  pub asset_address : String
  pub transaction_hash : String
  pub ledger : ℕ
  pub refunded_total : ℕ
  pub created_at : ℕ

pub record RefundRequest : Type 0 where
  pub id : String
  pub merchant_id : String
  pub payment_id : String
  pub refund_id : String
  pub amount : ℕ
  pub status : ChargeRequestStatus
  pub transaction_hash : Option String
  pub created_at : ℕ

abbrev pub Payload : Type 0
Payload = List (String × String)

pub record WebhookDelivery : Type 0 where
  pub id : String
  pub merchant_id : String
  pub event_id : String
  pub event_type : String
  pub payload : Payload
  pub attempt_count : ℕ
  pub next_attempt_at : Option ℕ
  pub status : WebhookDeliveryStatus
  pub created_at : ℕ

-- The arguments of a `charge` invocation.
pub record ChargeArgs : Type 0 where
  pub mandate_id : String
  pub charge_id : String
  pub amount : ℕ
  pub invoice_hash : String
  pub signed_authorization_entry_xdr : Option String

-- A call that leaves the process for the chain.
pub data ChainCall : Type 0 where
  read_mandate : String → ChainCall
  read_ledger : ChainCall
  prepare : ChargeArgs → ChainCall
  submit : ChargeArgs → ChainCall

-- The body of a webhook request, before it is printed as JSON.
pub record Envelope : Type 0 where
  pub event_id : String
  pub event_type : String
  pub created_at : ℕ
  pub signature_version : String
  pub payload : Payload

-- A webhook request that is sent.
pub record Post : Type 0 where
  pub url : String
  pub event_id : String
  pub timestamp_seconds : ℕ
  pub body : Envelope
  pub secret : String

pub record World : Type 0 where
  pub charge_requests : List ChargeRequest
  pub authorizations : List ChargeAuthorization
  pub merchants : List Merchant
  pub products : List Product
  pub sessions : List CheckoutSession
  pub mandates : List MandateRow
  pub payments : List Payment
  pub refund_requests : List RefundRequest
  pub deliveries : List WebhookDelivery
  pub calls : List ChainCall
  pub posts : List Post
  pub clock : ℕ
  pub uuids : ℕ

-- What the code throws: an `ApiError` by its HTTP status and code, an `Error` for a row that a job
-- names and that is not there, an `UnclassifiableContractError`, a database error by its code,
-- the rejection of a call, and an `IndexerRetentionGapError`.
pub data Fault : Type 0 where
  api_error : ℕ → String → Fault
  missing_row : String → Fault
  unclassifiable : String → Fault
  database_error : String → Fault
  rejected : Fault
  retention_gap : Fault

abbrev pub Job : Type 0 → Type 0
Job A = Run World Fault A

abbrev pub is_charge : String → ChargeRequest → Bool
is_charge id row = str_eq row.id id

abbrev pub is_authorization : String → ChargeAuthorization → Bool
is_authorization id row = str_eq row.id id

abbrev pub is_merchant : String → Merchant → Bool
is_merchant id row = str_eq row.id id

abbrev pub is_delivery : String → WebhookDelivery → Bool
is_delivery id row = str_eq row.id id

-- An optional column that holds a value.
abbrev pub holds : String → Option String → Bool
holds value none = false
holds value (some other) = str_eq other value

abbrev pub is_session_of : String → String → CheckoutSession → Bool
is_session_of merchant_id mandate_id session =
    str_eq session.merchant_id merchant_id && holds mandate_id session.mandate_id

abbrev pub is_product : String → Product → Bool
is_product id row = str_eq row.id id

-- `checkoutSession.findFirst` with its product, which its foreign key names.
abbrev pub product_of : String → String → World → Option Product
product_of merchant_id mandate_id w =
    of_session (find_where (is_session_of merchant_id mandate_id) w.sessions)
  where
    of_session : Option CheckoutSession → Option Product
    of_session none = none
    of_session (some session) = find_where (is_product session.product_id) w.products

abbrev pub find_charge : String → World → Option ChargeRequest
find_charge id w = find_where (is_charge id) w.charge_requests

abbrev pub find_delivery : String → World → Option WebhookDelivery
find_delivery id w = find_where (is_delivery id) w.deliveries

-- `data` of a conditional update: a field that is left out is kept.
abbrev pub or_keep {ℓ} : {A : Type ℓ} → Option A → A → A
or_keep none old = old
or_keep (some new) old = new

-- The same at a column that may be null, where `data` sets a value.
abbrev pub or_set {ℓ} : {A : Type ℓ} → Option A → Option A → Option A
or_set none old = old
or_set (some new) old = some new

abbrev pub log_call : ChainCall → World → World
log_call call w = record w { calls = call ∷ w.calls }
