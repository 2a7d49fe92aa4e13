-- ===== src/Relayer/Indexer/Fetch.antt =====
-- packages/stellar/src/events.ts and the production gateway of apps/relayer/src/indexer/chain-events-gateway.ts:
-- one page of events. `getEvents` of the RPC server, with the contract, the position and the limit that it is asked
-- for, is a parameter, which answers or throws a text.
pub mod Highest
pub mod Page
use stellar_journey.Base.{ℕ, String, Bool, Option, none, some, List, [], ◌∷◌, ltb, if◌then◌else◌}
use stellar_journey.Base.Effect.{Result, returned, thrown}
use stellar_journey.Base.Fallible.{◌>>=◌}
use stellar_journey.Client.Events.{
  LifecycleEvent, Native, EventResponse, decode_mandate_lifecycle_event,
}
use stellar_journey.Relayer.Indexer.Tick.{
  EventsRequest, ChainEventsPage, EventsAnswer, events_page, events_error,
}

pub record GetEventsResponse (ScVal : Type 0) : Type 0 where
  pub events : List (EventResponse ScVal)
  pub cursor : String
  pub latest_ledger : ℕ
  pub oldest_ledger : ℕ

abbrev pub raised : Option ℕ → ℕ → Option ℕ
raised none ledger = some ledger
raised (some highest) ledger = some (if ltb highest ledger then ledger else highest)

abbrev pub push : Option LifecycleEvent → List LifecycleEvent → List LifecycleEvent
push none events = events
push (some event) events = event ∷ events

module _ {ScVal : Type 0} (sc_val_to_native : ScVal → Native) (type_error : String) where
  abbrev pub decode_if_successful : EventResponse ScVal → Result String (Option LifecycleEvent)
  decode_if_successful raw =
      if raw.in_successful_contract_call
      then decode_mandate_lifecycle_event sc_val_to_native type_error raw
      else returned none

  -- The loop over the page, from the highest ledger seen so far.
  unfoldable pub scan :
      Option ℕ → List (EventResponse ScVal) → Result String (Option ℕ × List LifecycleEvent)
  scan highest [] = returned (highest, [])
  scan highest (raw ∷ raws) = do
    decoded ← decode_if_successful raw
    rest ← scan (raised highest raw.ledger) raws
    returned (rest.0, push decoded rest.1)

  abbrev pub page_of : GetEventsResponse ScVal → Option ℕ × List LifecycleEvent → ChainEventsPage
  page_of response scanned = record {
    events = scanned.1;
    cursor = response.cursor;
    latest_ledger = response.latest_ledger;
    oldest_ledger = response.oldest_ledger;
    page_max_ledger = scanned.0;
  }

  module _ (get_events : String → EventsRequest → Result String (GetEventsResponse ScVal)) where
    unfoldable pub fetch_mandate_lifecycle_events :
        String → EventsRequest → Result String ChainEventsPage
    fetch_mandate_lifecycle_events contract_id request = do
      response ← get_events contract_id request
      scanned ← scan none response.events
      returned (page_of response scanned)

    abbrev pub answer_of : Result String ChainEventsPage → EventsAnswer
    answer_of (returned page) = events_page page
    answer_of (thrown message) = events_error message

    -- `getEvents` of `createSorobanChainEventsGateway`.
    abbrev pub soroban_events : String → EventsRequest → EventsAnswer
    soroban_events contract_id request =
        answer_of (fetch_mandate_lifecycle_events contract_id request)
