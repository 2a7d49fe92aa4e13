-- ===== src/Api/Reader.antt =====
-- apps/api/src/chain/mandate-reader.ts: `createChainMandateReader`, the production reader of the API.
use stellar_journey.Base.{ℕ, String, Option, none, some}
use stellar_journey.Base.Effect.{Result, returned, thrown}
use stellar_journey.Client.Mandate.{Mandate}
use stellar_journey.Client.Calls.{GeneratedClient, get_mandate, get_refunded_total}
use stellar_journey.Api.Routes.{
  MandateAnswer, mandate_found, mandate_read_error, mandate_unavailable, MandateReader,
}

abbrev pub mandate_answer : Option (Result String Mandate) → MandateAnswer
mandate_answer none = mandate_unavailable
mandate_answer (some (thrown name)) = mandate_read_error
mandate_answer (some (returned mandate)) = mandate_found mandate

-- The ledger is what `getLatestLedger` of the server answers.
abbrev pub create_chain_mandate_reader : GeneratedClient → Option ℕ → MandateReader
create_chain_mandate_reader client latest_ledger = record {
  get_mandate = λ mandate_id. mandate_answer (get_mandate client mandate_id);
  get_refunded_total = λ payment_id. get_refunded_total client payment_id;
  get_latest_ledger_sequence = latest_ledger;
}
