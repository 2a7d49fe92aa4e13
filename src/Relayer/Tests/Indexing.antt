-- ===== src/Relayer/Tests/Indexing.antt =====
-- A tick of the indexer on a small store.
use stellar_journey.Base.{◌≡◌, ◌↔◌, refl, false, Option, none, some, [], ◌∷◌}
use stellar_journey.Relayer.Gateway.{mandate_unavailable}
use stellar_journey.Base.Effect.{returned}
use stellar_journey.Client.Events.{mandate_created, LifecycleEvent, Native, native_string, nothing}
use stellar_journey.Relayer.Indexer.Sync.{IndexerCursorState, IndexStore}
use stellar_journey.Relayer.Indexer.Keeps.{Keeps}
use stellar_journey.Relayer.Indexer.Tick.{
  ChainEventsPage, events_page, resume, IndexerDeps, run_indexer_tick, run_indexer_tick-Keeps,
}
use stellar_journey.Relayer.Indexer.Fetch.{GetEventsResponse, fetch_mandate_lifecycle_events}
use stellar_journey.Relayer.Indexer.Fetch.Page.{IsPage, fetch_mandate_lifecycle_events_iff}

abbrev created : LifecycleEvent
created = record {
  mandate_id = "m1";
  payer = "payer";
  merchant = "wallet";
  timestamp = 5;
  ledger = 60;
  tx_hash = "hash";
  rpc_event_id = "e1";
  kind = mandate_created "usdc";
}

abbrev page : ChainEventsPage
page = record {
  events = created ∷ created ∷ [];
  cursor = "c2";
  latest_ledger = 70;
  oldest_ledger = 50;
  page_max_ledger = some 60;
}

abbrev deps : IndexerDeps
deps = record {
  get_current_ledger = some 70;
  get_events = λ request. events_page page;
  get_mandate = λ id. mandate_unavailable;
  is_likely_retention_gap_error = λ message. false;
  initial_lookback_ledgers = 100;
  page_limit = 100;
  uuid = λ n. "uuid";
}

abbrev stale_cursor : IndexerCursorState
stale_cursor = record { last_ledger = 10; cursor = "c1" }

abbrev store_at : Option IndexerCursorState → IndexStore
store_at cursor = record {
  merchants =
      record { id = "shop"; wallet_address = "wallet"; webhook_url = none; webhook_secret = none }
      ∷ [];
  mandates = [];
  deliveries = [];
  cursor = cursor;
  clock = 1000;
  uuids = 0;
}

run_indexer_tick-Keeps_example : Keeps (store_at none) (run_indexer_tick deps (store_at none)).1
run_indexer_tick-Keeps_example = run_indexer_tick-Keeps deps (store_at none)

-- A server that answers one event of a failed call.
abbrev answered : GetEventsResponse Native
answered = record {
  events =
      record {
        id = "e1";
        ledger = 60;
        tx_hash = "hash";
        in_successful_contract_call = false;
        topic = native_string "mandate_paused" ∷ [];
        value = nothing;
      }
      ∷ [];
  cursor = "c2";
  latest_ledger = 70;
  oldest_ledger = 50;
}

abbrev no_events : ChainEventsPage
no_events = record {
  events = [];
  cursor = "c2";
  latest_ledger = 70;
  oldest_ledger = 50;
  page_max_ledger = some 60;
}

fetch_mandate_lifecycle_events_iff_example :
    (fetch_mandate_lifecycle_events
        (λ v. v)
        "TypeError"
        (λ contract request. returned answered)
        "contract"
        (resume "c1" 100)
      ≡ returned no_events)
    ↔ ((response : GetEventsResponse Native) × IsPage
          (λ v. v)
          "TypeError"
          (λ contract request. returned answered)
          "contract"
          (resume "c1" 100)
          response
          no_events)
fetch_mandate_lifecycle_events_iff_example =
    fetch_mandate_lifecycle_events_iff (λ v. v) "TypeError" (λ contract request. returned answered)
      "contract" (resume "c1" 100) no_events

fetched :
    fetch_mandate_lifecycle_events
      (λ v. v)
      "TypeError"
      (λ contract request. returned answered)
      "contract"
      (resume "c1" 100)
    ≡ returned no_events
unfolding fetch_mandate_lifecycle_events stellar_journey.Relayer.Indexer.Fetch.scan
fetched = refl
