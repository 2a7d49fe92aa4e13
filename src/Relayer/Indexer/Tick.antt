-- ===== src/Relayer/Indexer/Tick.antt =====
-- apps/relayer/src/indexer/indexer.ts and cursor.ts: one tick of the indexer. The test of an error's
-- text for a retention gap is an argument.
use stellar_journey.Base.{
  ℕ, ◌+◌, ◌-◌, ◌<◌, ◌≡◌, ◌∙◌, ap, refl, String, Bool, true, false, ◌&&◌, Option, none, some, List,
  [], ◌∷◌, str_eq, ltb, ◌==◌, length, lt→ltb, if◌then◌else◌,
}
use stellar_journey.Base.Effect.{pure, throw, or_throw, thrown, ◌>>=◌, ◌>>◌, modify, throw_if}
use stellar_journey.Store.{rejected, retention_gap}
use stellar_journey.Client.Events.{LifecycleEvent}
use stellar_journey.Relayer.Gateway.{MandateRead}
use stellar_journey.Relayer.Indexer.Sync.{
  IndexerCursorState, IndexStore, IndexJob, apply_mandate_lifecycle_event,
}
use stellar_journey.Relayer.Indexer.Keeps.{
  Keeps, Keeps-same, IsKeeping, bind-IsKeeping, apply_mandate_lifecycle_event-Keeps,
}

pub data EventsRequest : Type 0 where
  resume : String → ℕ → EventsRequest
  start_at : ℕ → ℕ → EventsRequest

pub record ChainEventsPage : Type 0 where
  pub events : List LifecycleEvent
  pub cursor : String
  pub latest_ledger : ℕ
  pub oldest_ledger : ℕ
  pub page_max_ledger : Option ℕ

pub data EventsAnswer : Type 0 where
  events_page : ChainEventsPage → EventsAnswer
  events_error : String → EventsAnswer

pub record IndexerDeps : Type 0 where
  -- `none` where it throws.
  pub get_current_ledger : Option ℕ
  pub get_events : EventsRequest → EventsAnswer
  pub get_mandate : String → MandateRead
  pub is_likely_retention_gap_error : String → Bool
  pub initial_lookback_ledgers : ℕ
  pub page_limit : ℕ
  pub uuid : ℕ → String

abbrev pub is_cursor : IndexerCursorState → IndexerCursorState → Bool
is_cursor a b = a.last_ledger == b.last_ledger && str_eq a.cursor b.cursor

-- `create`, whose conflict is ignored.
abbrev pub created_cursor : IndexerCursorState → Option IndexerCursorState → IndexerCursorState
created_cursor next none = next
created_cursor next (some present) = present

-- `updateMany` of the row that is still as it was read.
abbrev pub swapped_cursor :
    IndexerCursorState → IndexerCursorState → Option IndexerCursorState → Option IndexerCursorState
swapped_cursor previous next none = none
swapped_cursor previous next (some present) =
    some (if is_cursor present previous then next else present)

unfoldable pub advance_indexer_cursor :
    Option IndexerCursorState → IndexerCursorState → IndexJob (Unit {0})
advance_indexer_cursor none next =
    modify (λ w. record w { cursor = some (created_cursor next w.cursor) })
advance_indexer_cursor (some previous) next =
    modify (λ w. record w { cursor = swapped_cursor previous next w.cursor })

-- A resumed cursor whose next ledger is not kept any more.
abbrev pub falls_behind : Option IndexerCursorState → ChainEventsPage → Bool
falls_behind none page = false
falls_behind (some stored) page = ltb (stored.last_ledger + 1) page.oldest_ledger

abbrev pub later_of : ℕ → ℕ → ℕ
later_of a b = if ltb a b then b else a

-- `page.pageMaxLedger ?? stored?.lastLedger ?? request.startLedger`.
abbrev pub new_last_ledger : ChainEventsPage → Option IndexerCursorState → ℕ → ℕ
new_last_ledger page stored start_ledger = of_page page.page_max_ledger stored
  where
    of_page : Option ℕ → Option IndexerCursorState → ℕ
    of_page (some ledger) s = ledger
    of_page none (some s) = s.last_ledger
    of_page none none = start_ledger

module _ (deps : IndexerDeps) where
  unfoldable pub apply_events : List LifecycleEvent → IndexJob (Unit {0})
  apply_events [] = pure tt
  apply_events (event ∷ events) =
      apply_mandate_lifecycle_event deps.uuid deps.get_mandate event >> apply_events events

  unfoldable pub after_page : Option IndexerCursorState → ℕ → EventsAnswer → IndexJob ℕ
  after_page (some stored) start_ledger (events_error message) =
      throw (if deps.is_likely_retention_gap_error message then retention_gap else rejected)
  after_page none start_ledger (events_error message) = throw rejected
  after_page stored start_ledger (events_page page) = do
    throw_if (falls_behind stored page) retention_gap
    apply_events page.events
    advance_indexer_cursor stored
        (record { last_ledger = new_last_ledger page stored start_ledger; cursor = page.cursor })
    pure (length page.events)

  unfoldable pub run_from : Option IndexerCursorState → IndexJob ℕ
  run_from (some stored) =
      after_page (some stored) 0 (deps.get_events (resume stored.cursor deps.page_limit))
  run_from none = do
    latest ← or_throw deps.get_current_ledger rejected
    let start_ledger = later_of 1 (latest - deps.initial_lookback_ledgers)
    after_page none start_ledger (deps.get_events (start_at start_ledger deps.page_limit))

  unfoldable pub run_indexer_tick : IndexJob ℕ
  run_indexer_tick w = run_from w.cursor w

  apply_events-IsKeeping : (events : List LifecycleEvent) → IsKeeping (apply_events events)
  unfolding apply_events
  apply_events-IsKeeping [] = λ w. Keeps-same w w refl refl
  apply_events-IsKeeping (event ∷ events) =
      bind-IsKeeping (apply_mandate_lifecycle_event deps.uuid deps.get_mandate event)
        (λ u. apply_events events)
        (apply_mandate_lifecycle_event-Keeps deps.uuid deps.get_mandate event)
        (λ u. apply_events-IsKeeping events)

  finish-IsKeeping :
      (stored : Option IndexerCursorState) (next : IndexerCursorState) (n : ℕ)
      → IsKeeping (advance_indexer_cursor stored next >> pure n)
  unfolding advance_indexer_cursor
  finish-IsKeeping none next n = λ w. Keeps-same w _ refl refl
  finish-IsKeeping (some previous) next n = λ w. Keeps-same w _ refl refl

  page-IsKeeping :
      (gap : Bool) (stored : Option IndexerCursorState) (next : IndexerCursorState)
      (page : ChainEventsPage)
      → IsKeeping (
          throw_if gap retention_gap
          >> (apply_events page.events
              >> (advance_indexer_cursor stored next >> pure (length page.events))))
  page-IsKeeping true stored next page = λ w. Keeps-same w w refl refl
  page-IsKeeping false stored next page =
      bind-IsKeeping (apply_events page.events)
        (λ u. advance_indexer_cursor stored next >> pure (length page.events))
        (apply_events-IsKeeping page.events)
        (λ u. finish-IsKeeping stored next (length page.events))

  after_page-IsKeeping :
      (stored : Option IndexerCursorState) (start_ledger : ℕ) (answer : EventsAnswer)
      → IsKeeping (after_page stored start_ledger answer)
  unfolding after_page
  after_page-IsKeeping (some stored) start_ledger (events_error message) =
      λ w. Keeps-same w w refl refl
  after_page-IsKeeping none start_ledger (events_error message) = λ w. Keeps-same w w refl refl
  after_page-IsKeeping (some stored) start_ledger (events_page page) =
      page-IsKeeping (falls_behind (some stored) page) (some stored) _ page
  after_page-IsKeeping none start_ledger (events_page page) = page-IsKeeping false none _ page

  started-IsKeeping :
      (latest : Option ℕ)
      → IsKeeping (
          or_throw latest rejected >>= λ l.
          after_page none (later_of 1 (l - deps.initial_lookback_ledgers)) (
            deps.get_events
              (start_at (later_of 1 (l - deps.initial_lookback_ledgers)) deps.page_limit)))
  started-IsKeeping none = λ w. Keeps-same w w refl refl
  started-IsKeeping (some l) = after_page-IsKeeping none _ _

  run_from-IsKeeping : (stored : Option IndexerCursorState) → IsKeeping (run_from stored)
  unfolding run_from
  run_from-IsKeeping (some stored) = after_page-IsKeeping (some stored) 0 _
  run_from-IsKeeping none = started-IsKeeping deps.get_current_ledger

  -- Whatever the chain answers and wherever it stops, a tick of the indexer keeps that no event
  -- is announced twice, and every mandate that was indexed at a ledger stays indexed at that
  -- ledger or a later one.
  pub run_indexer_tick-Keeps : (w : IndexStore) → Keeps w (run_indexer_tick w).1
  unfolding run_indexer_tick
  run_indexer_tick-Keeps w = run_from-IsKeeping w.cursor w

  -- A stored cursor whose next ledger is before the oldest one of the page that answers it stops
  -- the tick with a retention gap, before anything is written.
  pub run_indexer_tick_gap :
      (w : IndexStore) (stored : IndexerCursorState) (page : ChainEventsPage)
      → w.cursor ≡ some stored
      → deps.get_events (resume stored.cursor deps.page_limit) ≡ events_page page
      → stored.last_ledger + 1 < page.oldest_ledger
      → run_indexer_tick w ≡ (thrown retention_gap, w)
  unfolding run_indexer_tick run_from after_page
  run_indexer_tick_gap w stored page has_cursor answer behind =
      ap (λ c. run_from c w) has_cursor ∙ rw (answer, lt→ltb _ _ behind)
