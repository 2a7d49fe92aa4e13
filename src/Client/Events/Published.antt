-- ===== src/Client/Events/Published.antt =====
-- What the decoder of packages/contract-client/src/events.ts accepts, against the events that the contract publishes.
use stellar_journey.Base.{
  ℕ, subst, ◌≢◌, ◌≡◌, ◌↔◌, refl, sym, ap, ◌∙◌, String, Option, none, some, List, map, arith,
}
use stellar_journey.Base.Effect.{returned}
use stellar_journey.Base.Fallible.{returned_inj, bind_inv}
use stellar_journey.Client.Ids.{id_to_hex}
use stellar_journey.Client.Events.{
  LifecycleKind, mandate_created, mandate_paused, mandate_resumed, mandate_revoked,
  mandate_completed, LifecycleEvent, Native, native_string, native_bytes, native_bigint,
  native_number, EventResponse, LifecycleEventKind, created, paused, resumed, revoked, completed,
  kind_name, kind_of_topic, as_bytes, as_string, as_bigint, as_number, topic_at, need, property,
  decode_kind, decode_event, decode_if_known, decode_mandate_lifecycle_event,
}
use stellar_journey.Client.Events.Natives.{
  HasField, lifecycle_event_kind-kind_name, kind_of_topic_sound, need_inv, some_inj, as_bytes_inv,
  as_string_inv, as_bigint_inv, as_number_inv, has_field, property_lem,
}

-- The kind of a decoded event.
abbrev pub kind_of : LifecycleKind → LifecycleEventKind
kind_of (mandate_created asset) = created
kind_of mandate_paused = paused
kind_of mandate_resumed = resumed
kind_of mandate_revoked = revoked
kind_of (mandate_completed charges) = completed

-- The field of the kinds that have one.
abbrev pub HasKindField : Native → LifecycleKind → Type 0
HasKindField fields (mandate_created asset) = HasField fields "asset" (native_string asset)
HasKindField fields (mandate_completed charges) =
    HasField fields "successful_charges" (native_number charges)
HasKindField fields _ = Unit

-- What the contract publishes of an event: the topics are the name, the id, the payer and the merchant; the data has
-- the time and the field of the kind.
pub record IsPublished {ScVal : Type 0} (sc_val_to_native : ScVal → Native)
    (raw : EventResponse ScVal) (event : LifecycleEvent) : Type 0 where
  pub name :
      topic_at (map sc_val_to_native raw.topic) 0 ≡ native_string (kind_name (kind_of event.kind))
  pub id : List ℕ
  pub id_topic : topic_at (map sc_val_to_native raw.topic) 1 ≡ native_bytes id
  pub id_text : id_to_hex id ≡ event.mandate_id
  pub payer : topic_at (map sc_val_to_native raw.topic) 2 ≡ native_string event.payer
  pub merchant : topic_at (map sc_val_to_native raw.topic) 3 ≡ native_string event.merchant
  pub time : HasField (sc_val_to_native raw.value) "timestamp" (native_bigint event.timestamp)
  pub of_kind : HasKindField (sc_val_to_native raw.value) event.kind
  pub ledger : raw.ledger ≡ event.ledger
  pub transaction : raw.tx_hash ≡ event.tx_hash
  pub event_id : raw.id ≡ event.rpc_event_id

module _ {ScVal : Type 0} (sc_val_to_native : ScVal → Native) (type_error : String) where
  decode_kind_sound :
      (id : String) (fields : Native) (kind : LifecycleEventKind) (decoded : LifecycleKind)
      → decode_kind sc_val_to_native type_error id fields kind ≡ returned decoded
      → (kind_of decoded ≡ kind) × HasKindField fields decoded
  unfolding decode_kind
  decode_kind_sound id fields created decoded h =
      let (field, first) = bind_inv (property type_error "asset" fields) _ decoded h in
      let (asset, second) = bind_inv (need (as_string field) _) _ decoded first.1 in
      let got = need_inv (as_string field) _ asset second.0 in
      let published = has_field type_error "asset" fields field as_string asset first.0 refl got in
      subst (λ d. (kind_of d ≡ created) × HasKindField fields d) (returned_inj second.1)
        (refl, subst (HasField fields "asset") (as_string_inv field asset got) published)
  decode_kind_sound id fields completed decoded h =
      let (field, first) = bind_inv (property type_error "successful_charges" fields) _ decoded h in
      let (count, second) = bind_inv (need (as_number field) _) _ decoded first.1 in
      let got = need_inv (as_number field) _ count second.0 in
      let published =
        has_field type_error "successful_charges" fields field as_number count first.0 refl got in
      subst (λ d. (kind_of d ≡ completed) × HasKindField fields d) (returned_inj second.1)
        (
          refl,
          subst (HasField fields "successful_charges") (as_number_inv field count got) published,
        )
  decode_kind_sound id fields paused decoded h =
      subst (λ d. (kind_of d ≡ paused) × HasKindField fields d) (returned_inj h) (refl, tt)
  decode_kind_sound id fields resumed decoded h =
      subst (λ d. (kind_of d ≡ resumed) × HasKindField fields d) (returned_inj h) (refl, tt)
  decode_kind_sound id fields revoked decoded h =
      subst (λ d. (kind_of d ≡ revoked) × HasKindField fields d) (returned_inj h) (refl, tt)

  decode_kind_complete :
      (id : String) (fields : Native) (decoded : LifecycleKind)
      → HasKindField fields decoded
      → decode_kind sc_val_to_native type_error id fields (kind_of decoded) ≡ returned decoded
  unfolding decode_kind
  decode_kind_complete id fields (mandate_created asset) h =
      rw (property_lem type_error "asset" fields (native_string asset) h) refl
  decode_kind_complete id fields (mandate_completed n) h =
      rw (property_lem type_error "successful_charges" fields (native_number n) h) refl
  decode_kind_complete id fields mandate_paused h = refl
  decode_kind_complete id fields mandate_resumed h = refl
  decode_kind_complete id fields mandate_revoked h = refl

  module _ (raw : EventResponse ScVal) (event : LifecycleEvent) where
    decode_event_sound :
        (kind : LifecycleEventKind)
        → topic_at (map sc_val_to_native raw.topic) 0 ≡ native_string (kind_name kind)
        → decode_event sc_val_to_native type_error raw
            (map sc_val_to_native raw.topic)
            (sc_val_to_native raw.value)
            kind
          ≡ returned event
        → IsPublished sc_val_to_native raw event
    unfolding decode_event
    decode_event_sound kind name h =
        let topics = map sc_val_to_native raw.topic in
        let fields = sc_val_to_native raw.value in
        let (bytes, h1) = bind_inv (need (as_bytes (topic_at topics 1)) _) _ event h in
        let (payer, h2) = bind_inv (need (as_string (topic_at topics 2)) _) _ event h1.1 in
        let (merchant, h3) = bind_inv (need (as_string (topic_at topics 3)) _) _ event h2.1 in
        let (field, h4) = bind_inv (property type_error "timestamp" fields) _ event h3.1 in
        let (time, h5) = bind_inv (need (as_bigint field) _) _ event h4.1 in
        let (decoded, h6) =
          bind_inv (decode_kind sc_val_to_native type_error raw.id fields kind) _ event h5.1 in
        let got = need_inv (as_bigint field) _ time h5.0 in
        let of_kind = decode_kind_sound raw.id fields kind decoded h6.0 in
        subst (IsPublished sc_val_to_native raw) (returned_inj h6.1) (record {
          name = name ∙ ap (λ k. native_string (kind_name k)) (sym of_kind.0);
          id = bytes;
          id_topic = as_bytes_inv _ bytes (need_inv _ _ bytes h1.0);
          id_text = refl;
          payer = as_string_inv _ payer (need_inv _ _ payer h2.0);
          merchant = as_string_inv _ merchant (need_inv _ _ merchant h3.0);
          time =
              subst (HasField fields "timestamp") (as_bigint_inv field time got)
                (has_field type_error "timestamp" fields field as_bigint time h4.0 refl got);
          of_kind = of_kind.1;
          ledger = refl;
          transaction = refl;
          event_id = refl;
        })

    decode_event_complete :
        IsPublished sc_val_to_native raw event
        → decode_event sc_val_to_native type_error raw
            (map sc_val_to_native raw.topic)
            (sc_val_to_native raw.value)
            (kind_of event.kind)
          ≡ returned event
    unfolding decode_event
    decode_event_complete h =
        rw
          (
            h.id_topic,
            h.payer,
            h.merchant,
            property_lem type_error "timestamp" (sc_val_to_native raw.value)
                (native_bigint event.timestamp) h.time,
            decode_kind_complete raw.id (sc_val_to_native raw.value) event.kind h.of_kind,
            h.id_text,
            h.ledger,
            h.transaction,
            h.event_id,
          )
          refl

    decode_known_sound :
        (known : Option LifecycleEventKind)
        → kind_of_topic (topic_at (map sc_val_to_native raw.topic) 0) ≡ known
        → decode_if_known sc_val_to_native type_error raw
            (map sc_val_to_native raw.topic)
            (sc_val_to_native raw.value)
            known
          ≡ returned (some event)
        → IsPublished sc_val_to_native raw event
    decode_known_sound none e h = ground arith
    decode_known_sound (some kind) e h =
        let (decoded, found) =
          bind_inv
            (decode_event sc_val_to_native type_error raw (map sc_val_to_native raw.topic)
              (sc_val_to_native raw.value) kind)
            _ (some event) h in
        let same : decoded ≡ event = some_inj (returned_inj found.1) in
        decode_event_sound kind (kind_of_topic_sound _ kind e) (found.0 ∙ ap returned same)

    -- An event of the chain is decoded to a lifecycle event exactly when its first four topics
    -- are the name of the kind, the bytes of the mandate's id, which the event has in
    -- hexadecimal, the payer and the merchant; its data has the time and the field of the kind,
    -- if it has one; and its ledger, transaction and id are the event's.
    pub decode_mandate_lifecycle_event_iff :
        (decode_mandate_lifecycle_event sc_val_to_native type_error raw ≡ returned (some event))
        ↔ IsPublished sc_val_to_native raw event
    unfolding decode_mandate_lifecycle_event
    decode_mandate_lifecycle_event_iff = (
      λ h. decode_known_sound _ refl h,
      λ h.
          rw (h.name, lifecycle_event_kind-kind_name (kind_of event.kind), decode_event_complete h)
            refl,
    )

  -- An event of another name.
  abbrev pub IsOther : EventResponse ScVal → Type 0
  IsOther raw =
      (kind : LifecycleEventKind)
      → topic_at (map sc_val_to_native raw.topic) 0 ≢ native_string (kind_name kind)

  not_known :
      (topic : Native) (known : Option LifecycleEventKind)
      → kind_of_topic topic ≡ known
      → ((kind : LifecycleEventKind) → topic ≢ native_string (kind_name kind))
      → known ≡ none
  not_known topic none e other = refl
  not_known topic (some kind) e other = absurd (other kind (kind_of_topic_sound topic kind e))

  decode_unknown_sound :
      (raw : EventResponse ScVal) (known : Option LifecycleEventKind)
      → decode_if_known sc_val_to_native type_error raw
          (map sc_val_to_native raw.topic)
          (sc_val_to_native raw.value)
          known
        ≡ returned none
      → known ≡ none
  decode_unknown_sound raw none h = refl
  decode_unknown_sound raw (some kind) h =
      let (decoded, found) =
        bind_inv
          (decode_event sc_val_to_native type_error raw (map sc_val_to_native raw.topic)
            (sc_val_to_native raw.value) kind)
          _ none h in
      absurd (some≢none decoded (returned_inj found.1))
    where
      some≢none : (event : LifecycleEvent) → some event ≢ none
      some≢none event e = ground arith

  -- An event is passed over exactly where it has another name.
  pub decode-IsOther :
      (raw : EventResponse ScVal)
      → (decode_mandate_lifecycle_event sc_val_to_native type_error raw ≡ returned none)
        ↔ IsOther raw
  unfolding decode_mandate_lifecycle_event
  decode-IsOther raw = (
    λ h kind e. known≢none kind (
        sym (ap kind_of_topic e ∙ lifecycle_event_kind-kind_name kind)
        ∙ decode_unknown_sound raw _ h),
    λ other. rw (not_known (topic_at (map sc_val_to_native raw.topic) 0) _ refl other) refl,
  )
    where
      known≢none : (kind : LifecycleEventKind) → some kind ≢ none
      known≢none kind e = ground arith
