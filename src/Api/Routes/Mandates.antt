-- ===== src/Api/Routes/Mandates.antt =====
-- apps/api/src/routes/mandates.ts: a merchant lists its mandates, and reads one, which refreshes the
-- index; and the index row that a handler writes. A mandate is shown as it was read, with its times in
-- milliseconds.
use stellar_journey.Base.{
  ℕ, ◌+◌, ◌*◌, String, Bool, not, ◌||◌, Option, none, some, List, [], ◌∷◌, str_eq, ltb, ◌==◌,
  find_where, update_where, if◌then◌else◌,
}
use stellar_journey.Base.Effect.{pure, throw, gets, or_throw, ◌>>=◌, ◌>>◌, modify, throw_if}
use stellar_journey.Client.Mandate.{
  MandateStatus, active, paused, revoked, completed, expired, AmountRule, Mandate,
}
use stellar_journey.Shared.HexId.{is_hex_id32}
use stellar_journey.Store.{
  MandateRow, World, Fault, api_error, rejected, Job, Merchant, read_mandate, log_call,
}
use stellar_journey.Api.Routes.{
  MandateReader, MandateAnswer, mandate_found, mandate_read_error, mandate_unavailable,
  validation_error, require_mandate,
}
use stellar_journey.Api.Routes.Listing.{find_many}

abbrev pub status_text : MandateStatus → String
status_text active = "Active"
status_text paused = "Paused"
status_text revoked = "Revoked"
status_text completed = "Completed"
status_text expired = "Expired"

abbrev pub is_row_of : String → MandateRow → Bool
is_row_of mandate_id row = str_eq row.mandate_id mandate_id

-- `upsert`: the row that is there is updated; else the new one is added.
abbrev pub upsert_row :
    String
    → MandateRow
    → (MandateRow → MandateRow)
    → Option MandateRow
    → List MandateRow
    → List MandateRow
upsert_row id fresh_row update none rows = fresh_row ∷ rows
upsert_row id fresh_row update (some row) rows = update_where (is_row_of id) update rows

unfoldable pub upsert_mandate : String → MandateRow → (MandateRow → MandateRow) → World → World
upsert_mandate id fresh_row update w = record w {
  mandates = upsert_row id fresh_row update (find_where (is_row_of id) w.mandates) w.mandates;
}

-- `create` of the upsert; the version has the schema's default.
abbrev pub indexed_mandate : String → String → Mandate → ℕ → MandateRow
indexed_mandate mandate_id merchant_id mandate clock = record {
  mandate_id = mandate_id;
  merchant_id = merchant_id;
  payer_address = mandate.payer;
  merchant_address = mandate.merchant;
  asset_address = mandate.asset;
  status = status_text mandate.status;
  contract_state_version = 0;
  last_indexed_ledger = none;
  last_indexed_at = some clock;
  created_at = clock;
}

-- `update` of the upsert.
abbrev pub refreshed_mandate : Mandate → ℕ → MandateRow → MandateRow
refreshed_mandate mandate clock row = record row {
  status = status_text mandate.status;
  last_indexed_at = some clock;
  contract_state_version = row.contract_state_version + 1;
}

pub record MandateResponse : Type 0 where
  pub id : String
  pub payer : String
  pub merchant : String
  pub asset : String
  pub status : String
  pub amount_rule : AmountRule
  pub max_per_period_base_units : ℕ
  pub period_seconds : ℕ
  pub min_interval_seconds : ℕ
  pub start_at : ℕ
  pub expires_at : ℕ
  pub max_successful_charges : ℕ
  pub successful_charges : ℕ
  pub total_collected_base_units : ℕ
  pub current_period_start : ℕ
  pub current_period_collected_base_units : ℕ
  pub last_charged_at : Option ℕ
  pub created_at : ℕ

abbrev pub as_milliseconds : Option ℕ → Option ℕ
as_milliseconds none = none
as_milliseconds (some seconds) = some (seconds * 1000)

unfoldable pub to_mandate_response : Mandate → MandateResponse
to_mandate_response mandate = record {
  id = mandate.id;
  payer = mandate.payer;
  merchant = mandate.merchant;
  asset = mandate.asset;
  status = status_text mandate.status;
  amount_rule = mandate.amount_rule;
  max_per_period_base_units = mandate.max_per_period;
  period_seconds = mandate.period_seconds;
  min_interval_seconds = mandate.min_interval_seconds;
  start_at = mandate.start_at * 1000;
  expires_at = mandate.expires_at * 1000;
  max_successful_charges = mandate.max_successful_charges;
  successful_charges = mandate.successful_charges;
  total_collected_base_units = mandate.total_collected;
  current_period_start = mandate.current_period_start * 1000;
  current_period_collected_base_units = mandate.current_period_collected;
  last_charged_at = as_milliseconds mandate.last_charged_at;
  created_at = mandate.created_at * 1000;
}

-- A row of the list: as the chain holds the mandate now, or as the index last saw it.
pub data ListedMandate : Type 0 where
  live : String → MandateResponse → ListedMandate
  cached : String → String → Option ℕ → ListedMandate

-- `none` where the read fails with another error, which the route throws.
abbrev pub listed_mandate : MandateRow → MandateAnswer → Option ListedMandate
listed_mandate row (mandate_found mandate) =
    some (live row.mandate_id (to_mandate_response mandate))
listed_mandate row mandate_read_error = some (cached row.mandate_id row.status row.last_indexed_at)
listed_mandate row mandate_unavailable = none

-- `Promise.all` on a first row and the others.
abbrev pub with_listed :
    Option ListedMandate → Option (List ListedMandate) → Option (List ListedMandate)
with_listed (some row) (some rows) = some (row ∷ rows)
with_listed _ _ = none

abbrev pub no_mandate : Fault
no_mandate = api_error 404 "MandateNotFound"

-- The reads of a page, all of which are begun.
unfoldable pub log_reads : List MandateRow → World → World
log_reads [] w = w
log_reads (row ∷ rows) w = log_reads rows (log_call (read_mandate row.mandate_id) w)

module _ (reader : MandateReader) where
  unfoldable pub listed_mandates : List MandateRow → Option (List ListedMandate)
  listed_mandates [] = some []
  listed_mandates (row ∷ rows) =
      with_listed (listed_mandate row (reader.get_mandate row.mandate_id)) (listed_mandates rows)

  abbrev pub read_page : List MandateRow → Job (List ListedMandate)
  read_page rows = do modify (log_reads rows); or_throw (listed_mandates rows) rejected

module _ (reader : MandateReader) (merchant : Merchant) where
  abbrev pub show_mandate : String → Mandate → Job MandateResponse
  show_mandate mandate_id mandate = do
    throw_if (not (str_eq mandate.merchant merchant.wallet_address)) no_mandate
    clock ← gets (λ w. w.clock)
    modify (
        upsert_mandate mandate_id (indexed_mandate mandate_id merchant.id mandate clock)
          (refreshed_mandate mandate clock))
    pure (to_mandate_response mandate)

  unfoldable pub get_merchant_mandate : String → Job MandateResponse
  get_merchant_mandate id = do
    throw_if (not (is_hex_id32 id)) validation_error
    mandate ← require_mandate reader no_mandate id
    show_mandate id mandate

  abbrev pub list_page : ℕ → Job (List ListedMandate)
  list_page limit = do
    rows ← gets (λ w.
        find_many (λ row. row.created_at) (λ row. str_eq row.merchant_id merchant.id) limit
          w.mandates)
    read_page reader rows

  unfoldable pub list_mandates : ℕ → Job (List ListedMandate)
  list_mandates limit =
      if limit == 0 || ltb 50 limit then throw validation_error else list_page limit
