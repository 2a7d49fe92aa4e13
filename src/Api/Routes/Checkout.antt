-- ===== src/Api/Routes/Checkout.antt =====
-- apps/api/src/routes/checkout-sessions.ts: a merchant opens a checkout session, a payer's browser reads it,
-- and reports the mandate that the payer has created on chain. The merchant's name in the public answer is
-- left out. `pending` and `expired` of a session are `open_session` and `lapsed`.
pub mod Linking
pub mod Opening
use stellar_journey.Base.{
  ℕ, ◌+◌, ◌*◌, String, Bool, true, false, not, ◌&&◌, ◌||◌, Option, none, some, List, [], ◌∷◌, map,
  str_eq, leb, ltb, ◌==◌, find_where, update_where, truthy, length, codes, if◌then◌else◌,
}
use stellar_journey.Base.Effect.{pure, throw, gets, or_throw, ◌>>=◌, ◌>>◌, modify, throw_if}
use stellar_journey.Client.Mandate.{Mandate}
use stellar_journey.Shared.HexId.{is_hex_id32}
use stellar_journey.Store.{
  Product, CheckoutSession, CheckoutSessionStatus, open_session, completed, lapsed, canceled,
  MandateRow, World, Fault, api_error, Job, Merchant, is_product, is_merchant,
}
use stellar_journey.Api.Idempotency.{
  IdempotentHandlerResult, IdempotentOutcome, on_store, run_idempotent,
}
use stellar_journey.Api.Routes.{
  MandateReader, Route, validation_error, require_idempotency_key, fresh, require_mandate,
}
use stellar_journey.Api.Routes.Listing.{find_many}
use stellar_journey.Api.Routes.Refunds.{matches}
use stellar_journey.Api.Routes.Products.{
  ProductResponse, to_product_response, is_product_of, product_not_found,
}
use stellar_journey.Api.Routes.Mandates.{upsert_mandate, indexed_mandate, status_text}

pub record CreateCheckoutSession : Type 0 where
  pub product_id : String
  pub client_reference : Option String
  pub payer_address : Option String
  pub expires_at : Option String

pub record LinkMandate : Type 0 where
  pub mandate_id : String
  pub payer_address : String

pub record PublicSession : Type 0 where
  pub id : String
  pub status : CheckoutSessionStatus
  pub expires_at : ℕ
  pub client_reference : Option String
  pub mandate_id : Option String
  pub payer_address : Option String
  pub merchant_address : String
  pub product : ProductResponse

pub record CheckoutDeps : Type 0 where
  pub reader : MandateReader
  -- The format `uuid` of zod, `StrKey.isValidEd25519PublicKey` and `Date.parse`.
  pub is_uuid : String → Bool
  pub is_account_address : String → Bool
  pub parse_date : String → Option ℕ
  pub uuid : ℕ → String
  pub print : CheckoutSession → String

abbrev pub all_of : {A : Type 0} → (A → Bool) → Option A → Bool
all_of p none = true
all_of p (some a) = p a

abbrev pub is_some : Option ℕ → Bool
is_some none = false
is_some (some a) = true

-- `CreateCheckoutSessionSchema`.
unfoldable pub matches_schema : CheckoutDeps → CreateCheckoutSession → Bool
matches_schema deps input =
    deps.is_uuid input.product_id
    && all_of (λ s. leb (length (codes s)) 255) input.client_reference
    && all_of deps.is_account_address input.payer_address
    && all_of (λ s. is_some (deps.parse_date s)) input.expires_at

-- The end of a session: the time of the body, or the product's duration from now.
abbrev pub ends_at : CheckoutDeps → CreateCheckoutSession → Product → ℕ → ℕ
ends_at deps input product now = of_date (parsed (truthy input.expires_at))
  where
    parsed : Option String → Option ℕ
    parsed none = none
    parsed (some s) = deps.parse_date s

    of_date : Option ℕ → ℕ
    of_date none = now + product.default_duration_seconds * 1000
    of_date (some time) = time

abbrev pub add_session : CheckoutSession → World → World
add_session session w = record w { sessions = session ∷ w.sessions }

abbrev pub is_session : String → CheckoutSession → Bool
is_session id row = str_eq row.id id

abbrev pub is_own_session : String → String → CheckoutSession → Bool
is_own_session merchant_id id row = is_session id row && str_eq row.merchant_id merchant_id

abbrev pub session_not_found : Fault
session_not_found = api_error 404 "CHECKOUT_SESSION_NOT_FOUND"

module _ (merchant : Merchant) where
  abbrev pub is_listed_session : Option String → CheckoutSession → Bool
  is_listed_session product_id row =
      str_eq row.merchant_id merchant.id && matches (truthy product_id) row.product_id

  unfoldable pub list_checkout_sessions : Option String → ℕ → Job (List CheckoutSession)
  list_checkout_sessions product_id limit =
      if limit == 0 || ltb 100 limit
      then throw validation_error
      else gets
          (λ w. find_many (λ row. row.created_at) (is_listed_session product_id) limit w.sessions)

  unfoldable pub get_checkout_session : String → Job CheckoutSession
  get_checkout_session id = do
    found ← gets (λ w. find_where (is_own_session merchant.id id) w.sessions)
    or_throw found session_not_found

  module _ (deps : CheckoutDeps) where
    abbrev pub session_row : String → CreateCheckoutSession → Product → ℕ → ℕ → CheckoutSession
    session_row id input product expires_at clock = record {
      id = id;
      merchant_id = merchant.id;
      product_id = product.id;
      client_reference = input.client_reference;
      payer_address = input.payer_address;
      expires_at = expires_at;
      status = open_session;
      mandate_id = none;
      created_at = clock;
    }

    -- The handler under the idempotency key.
    unfoldable pub new_session : CreateCheckoutSession → Product → ℕ → Job IdempotentHandlerResult
    new_session input product expires_at = do
      id ← fresh deps.uuid
      clock ← gets (λ w. w.clock)
      let session = session_row id input product expires_at clock
      modify (add_session session)
      pure (record { status = 201; body = deps.print session })

    abbrev pub check_product : CreateCheckoutSession → Job (Product × ℕ)
    check_product input = do
      found ← gets (λ w. find_where (is_product_of merchant.id input.product_id) w.products)
      product ← or_throw found product_not_found
      now ← gets (λ w. w.clock)
      pure (product, ends_at deps input product now)

    abbrev pub session_checked :
        String → String → CreateCheckoutSession → Product × ℕ → Route IdempotentOutcome
    session_checked key request_hash input (product, expires_at) =
        run_idempotent merchant.id key request_hash (new_session input product expires_at)

    abbrev pub session_keyed : String → CreateCheckoutSession → String → Route IdempotentOutcome
    session_keyed request_hash input key = do
      throw_if (not (matches_schema deps input)) validation_error
      check ← on_store (check_product input)
      session_checked key request_hash input check

    unfoldable pub create_checkout_session :
        Option String → String → CreateCheckoutSession → Route IdempotentOutcome
    create_checkout_session header request_hash input = do
      key ← require_idempotency_key header
      session_keyed request_hash input key

-- A session with its product and its merchant, which its foreign keys name.
pub record Included : Type 0 where
  pub session : CheckoutSession
  pub product : Product
  pub merchant : Merchant

abbrev pub include : CheckoutSession → Option Product → Option Merchant → Option Included
include session (some product) (some merchant) =
    some (record { session = session; product = product; merchant = merchant })
include session _ _ = none

abbrev pub included_of : List Product → List Merchant → Option CheckoutSession → Option Included
included_of products merchants none = none
included_of products merchants (some session) =
    include session (find_where (is_product session.product_id) products)
      (find_where (is_merchant session.merchant_id) merchants)

abbrev pub find_included : String → World → Option Included
find_included id w = included_of w.products w.merchants (find_where (is_session id) w.sessions)

abbrev pub is_open : CheckoutSession → ℕ → Bool
is_open session now = is_pending session.status && ltb now session.expires_at
  where
    is_pending : CheckoutSessionStatus → Bool
    is_pending open_session = true
    is_pending _ = false

-- A pending session that is over is shown as expired.
abbrev pub effective_status : CheckoutSession → ℕ → CheckoutSessionStatus
effective_status session now = of_status session.status
  where
    of_status : CheckoutSessionStatus → CheckoutSessionStatus
    of_status open_session = if leb session.expires_at now then lapsed else open_session
    of_status other = other

abbrev pub public_session : Included → ℕ → PublicSession
public_session found now = record {
  id = found.session.id;
  status = effective_status found.session now;
  expires_at = found.session.expires_at;
  client_reference = found.session.client_reference;
  mandate_id = found.session.mandate_id;
  payer_address = found.session.payer_address;
  merchant_address = found.merchant.wallet_address;
  product = to_product_response found.product;
}

unfoldable pub get_public_session : String → Job PublicSession
get_public_session id = do
  included ← gets (find_included id)
  found ← or_throw included session_not_found
  now ← gets (λ w. w.clock)
  pure (public_session found now)

abbrev pub link_session : LinkMandate → CheckoutSession → CheckoutSession
link_session input session = record session {
  mandate_id = some input.mandate_id;
  payer_address = some input.payer_address;
  status = completed;
}

-- `update` of the upsert.
abbrev pub linked_mandate : Mandate → ℕ → MandateRow → MandateRow
linked_mandate mandate clock row = record row {
  payer_address = mandate.payer;
  status = status_text mandate.status;
  last_indexed_at = some clock;
  contract_state_version = row.contract_state_version + 1;
}

abbrev pub link_not_found : Fault
link_not_found = api_error 400 "MandateNotFound"

abbrev pub merchant_mismatch : Fault
merchant_mismatch = api_error 400 "MANDATE_MERCHANT_MISMATCH"

abbrev pub asset_mismatch : Fault
asset_mismatch = api_error 400 "MANDATE_ASSET_MISMATCH"

abbrev pub payer_mismatch : Fault
payer_mismatch = api_error 400 "MANDATE_PAYER_MISMATCH"

abbrev pub already_linked : Fault
already_linked = api_error 409 "CHECKOUT_SESSION_ALREADY_LINKED"

abbrev pub session_not_pending : Fault
session_not_pending = api_error 409 "CHECKOUT_SESSION_NOT_PENDING"

module _ (deps : CheckoutDeps) (input : LinkMandate) where
  -- The writes: the session, and the index of mandates.
  unfoldable pub store_link : Included → Mandate → Job CheckoutSession
  store_link found mandate = do
    modify (λ w. record w {
      sessions = update_where (is_session found.session.id) (link_session input) w.sessions;
    })
    clock ← gets (λ w. w.clock)
    modify (
        upsert_mandate input.mandate_id
          (indexed_mandate input.mandate_id found.session.merchant_id mandate clock)
          (linked_mandate mandate clock))
    pure (link_session input found.session)

  unfoldable pub check_link : Included → Mandate → Job CheckoutSession
  check_link found mandate = do
    throw_if (not (str_eq mandate.merchant found.merchant.wallet_address)) merchant_mismatch
    throw_if (not (str_eq mandate.asset found.product.asset_address)) asset_mismatch
    throw_if (not (str_eq mandate.payer input.payer_address)) payer_mismatch
    store_link found mandate

  abbrev pub link_open : Included → Job CheckoutSession
  link_open found = do
    mandate ← require_mandate deps.reader link_not_found input.mandate_id
    check_link found mandate

  abbrev pub link_at : Included → ℕ → Job CheckoutSession
  link_at found now = do
    throw_if (not (is_open found.session now)) session_not_pending
    link_open found

  -- By the mandate of the session.
  abbrev pub link_found : Included → Option String → Job CheckoutSession
  link_found found (some mandate_id) =
      if str_eq mandate_id input.mandate_id then pure found.session else throw already_linked
  link_found found none = do now ← gets (λ w. w.clock); link_at found now

  abbrev pub link_read : Included → Job CheckoutSession
  link_read found = link_found found found.session.mandate_id

  unfoldable pub link_mandate : String → Job CheckoutSession
  link_mandate id = do
    throw_if (not (is_hex_id32 input.mandate_id && deps.is_account_address input.payer_address))
        validation_error
    included ← gets (find_included id)
    found ← or_throw included session_not_found
    link_read found
