-- ===== src/Relayer/Indexer/Fetch/Page.antt =====
-- What a page of packages/stellar/src/events.ts holds of the events that the server answered.
use stellar_journey.Base.{
  ℕ, ◌≡◌, ◌↔◌, ◌≢◌, ◌∙◌, refl, sym, ap, subst, String, Bool, true, false, Option, none, some, List,
  [], ◌∷◌, arith, Bool-cases, inl, inr, if◌then◌else◌,
}
use stellar_journey.Base.Effect.{Result, returned}
use stellar_journey.Base.Fallible.{returned_inj, bind_inv}
use stellar_journey.Client.Events.{
  LifecycleEvent, Native, EventResponse, decode_mandate_lifecycle_event,
}
use stellar_journey.Client.Events.Published.{
  IsPublished, IsOther, decode_mandate_lifecycle_event_iff, decode-IsOther,
}
use stellar_journey.Relayer.Indexer.Tick.{EventsRequest, ChainEventsPage}
use stellar_journey.Relayer.Indexer.Fetch.{
  GetEventsResponse, raised, push, decode_if_successful, scan, fetch_mandate_lifecycle_events,
}
use stellar_journey.Relayer.Indexer.Fetch.Highest.{
  IsHighest, raised_over, raised_over-IsHighest, IsHighest-unique,
}

module _ {ScVal : Type 0} (sc_val_to_native : ScVal → Native) (type_error : String) where
  -- The events are those that the contract published in successful calls, in their order.
  pub data IsDecoded : List (EventResponse ScVal) → List LifecycleEvent → Type 0 where
    no_more : IsDecoded [] []
    kept :
        {raw : EventResponse ScVal} {event : LifecycleEvent} {raws : List (EventResponse ScVal)}
        {events : List LifecycleEvent}
        → raw.in_successful_contract_call ≡ true
        → IsPublished sc_val_to_native raw event
        → IsDecoded raws events
        → IsDecoded (raw ∷ raws) (event ∷ events)
    failed :
        {raw : EventResponse ScVal} {raws : List (EventResponse ScVal)}
        {events : List LifecycleEvent}
        → raw.in_successful_contract_call ≡ false
        → IsDecoded raws events
        → IsDecoded (raw ∷ raws) events
    other :
        {raw : EventResponse ScVal} {raws : List (EventResponse ScVal)}
        {events : List LifecycleEvent}
        → IsOther sc_val_to_native type_error raw
        → IsDecoded raws events
        → IsDecoded (raw ∷ raws) events

  tested :
      (raw : EventResponse ScVal) {b : Bool}
      → raw.in_successful_contract_call ≡ b
      → decode_if_successful sc_val_to_native type_error raw ≡ (
          if b
          then decode_mandate_lifecycle_event sc_val_to_native type_error raw
          else returned none)
  tested raw e =
      ap
        (λ b.
          if b
          then decode_mandate_lifecycle_event sc_val_to_native type_error raw
          else returned none)
        e

  passed :
      (raw : EventResponse ScVal)
      → IsOther sc_val_to_native type_error raw
      → decode_if_successful sc_val_to_native type_error raw ≡ returned none
  passed raw o = elim (Bool-cases raw.in_successful_contract_call) [
    | inl success ↦ tested raw success ∙ (decode-IsOther sc_val_to_native type_error raw).1 o
    | inr failure ↦ tested raw failure
  ]

  scan_sound :
      (highest : Option ℕ) (raws : List (EventResponse ScVal)) (last : Option ℕ)
      (events : List LifecycleEvent)
      → scan sc_val_to_native type_error highest raws ≡ returned (last, events)
      → (last ≡ raised_over highest raws) × IsDecoded raws events
  unfolding scan raised_over
  scan_sound highest [] last events h =
      let same = returned_inj h in
      (sym (ap (λ p. p.0) same), subst (IsDecoded []) (ap (λ p. p.1) same) no_more)
  scan_sound highest (raw ∷ raws) last events h =
      let (decoded, h1) =
        bind_inv (decode_if_successful sc_val_to_native type_error raw) _ (last, events) h in
      let (rest, h2) =
        bind_inv (scan sc_val_to_native type_error (raised highest raw.ledger) raws) _
          (last, events) h1.1 in
      let same = returned_inj h2.1 in
      let (last_of, tail) = scan_sound (raised highest raw.ledger) raws rest.0 rest.1 h2.0 in
      (
        sym (ap (λ p. p.0) same) ∙ last_of,
        subst (IsDecoded (raw ∷ raws)) (ap (λ p. p.1) same) (head decoded rest.1 h1.0 tail),
      )
    where
      at_success :
          (decoded : Option LifecycleEvent)
          → raw.in_successful_contract_call ≡ true
          → decode_if_successful sc_val_to_native type_error raw ≡ returned decoded
          → decode_mandate_lifecycle_event sc_val_to_native type_error raw ≡ returned decoded
      at_success decoded success e = sym (tested raw success) ∙ e

      none≢some : (event : LifecycleEvent) → none ≢ some event
      none≢some event e = ground arith

      head :
          (decoded : Option LifecycleEvent) (tail : List LifecycleEvent)
          → decode_if_successful sc_val_to_native type_error raw ≡ returned decoded
          → IsDecoded raws tail
          → IsDecoded (raw ∷ raws) (push decoded tail)
      head none tail e h = elim (Bool-cases raw.in_successful_contract_call) [
        | inl success ↦
            other ((decode-IsOther sc_val_to_native type_error raw).0 (at_success none success e)) h
        | inr failure ↦ failed failure h
      ]
      head (some event) tail e h = elim (Bool-cases raw.in_successful_contract_call) [
        | inl success ↦
            kept success
              ((decode_mandate_lifecycle_event_iff sc_val_to_native type_error raw event).0
                (at_success (some event) success e))
              h
        | inr failure ↦ absurd (none≢some event (returned_inj (sym (tested raw failure) ∙ e)))
      ]

  scan_complete :
      (highest : Option ℕ) (raws : List (EventResponse ScVal)) (events : List LifecycleEvent)
      → IsDecoded raws events
      → scan sc_val_to_native type_error highest raws ≡ returned (raised_over highest raws, events)
  unfolding scan raised_over
  scan_complete highest [] [] no_more = refl
  scan_complete highest [] (event ∷ events) h = elim h [ ]
  scan_complete highest (raw ∷ raws) (event ∷ events) (kept success published rest) =
      rw
        (
          tested raw success
              ∙ (decode_mandate_lifecycle_event_iff sc_val_to_native type_error raw event).1
                  published,
          scan_complete (raised highest raw.ledger) raws events rest,
        )
        refl
  scan_complete highest (raw ∷ raws) events (failed failure rest) =
      rw (tested raw failure, scan_complete (raised highest raw.ledger) raws events rest) refl
  scan_complete highest (raw ∷ raws) events (other o rest) =
      rw (passed raw o, scan_complete (raised highest raw.ledger) raws events rest) refl

  module _ (get_events : String → EventsRequest → Result String (GetEventsResponse ScVal))
      (contract_id : String) (request : EventsRequest) where
    -- A page of an answer.
    pub record IsPage (response : GetEventsResponse ScVal) (page : ChainEventsPage) : Type 0 where
      pub answered : get_events contract_id request ≡ returned response
      pub decoded : IsDecoded response.events page.events
      pub highest : IsHighest page.page_max_ledger response.events
      pub cursor : response.cursor ≡ page.cursor
      pub latest : response.latest_ledger ≡ page.latest_ledger
      pub oldest : response.oldest_ledger ≡ page.oldest_ledger

    -- A fetch of events returns a page exactly when the server has answered, each of its events
    -- of a successful call with one of the five names has the shape that the contract publishes,
    -- and the page has those events decoded, in their order, the highest ledger of all events of
    -- the answer, none for an empty one, and the server's cursor and ledgers.
    pub fetch_mandate_lifecycle_events_iff :
        (page : ChainEventsPage)
        → (fetch_mandate_lifecycle_events sc_val_to_native type_error get_events contract_id request
            ≡ returned page)
          ↔ ((response : GetEventsResponse ScVal) × IsPage response page)
    unfolding fetch_mandate_lifecycle_events
    fetch_mandate_lifecycle_events_iff page = (fetched, λ h. found h.0 h.1)
      where
        fetched :
            fetch_mandate_lifecycle_events sc_val_to_native type_error get_events contract_id
                request
              ≡ returned page
            → (response : GetEventsResponse ScVal) × IsPage response page
        fetched h =
            let (response, h1) = bind_inv (get_events contract_id request) _ page h in
            let (scanned, h2) =
              bind_inv (scan sc_val_to_native type_error none response.events) _ page h1.1 in
            let (last, decoded) = scan_sound none response.events scanned.0 scanned.1 h2.0 in
            (
              response,
              subst (IsPage response) (returned_inj h2.1) (record {
                answered = h1.0;
                decoded = decoded;
                highest = rw last (raised_over-IsHighest response.events);
                cursor = refl;
                latest = refl;
                oldest = refl;
              }),
            )

        found :
            (response : GetEventsResponse ScVal)
            → IsPage response page
            → fetch_mandate_lifecycle_events sc_val_to_native type_error get_events contract_id
                request
              ≡ returned page
        found response h =
            let last =
              IsHighest-unique (raised_over none response.events) page.page_max_ledger
                response.events (raised_over-IsHighest response.events) h.highest in
            rw
              (
                h.answered,
                scan_complete none response.events page.events h.decoded,
                last,
                h.cursor,
                h.latest,
                h.oldest,
              )
              refl
