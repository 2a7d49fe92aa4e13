-- ===== src/Client/Events.antt =====
-- packages/contract-client/src/events.ts: an event of the contract, decoded. The values of the SDK, their
-- conversion `scValToNative` and the text of the engine's own `TypeError` are parameters.
use stellar_journey.Base.{
  ℕ, zero, suc, String, Bool, Option, none, some, List, [], ◌∷◌, str_eq, join, map, if◌then◌else◌,
}
pub mod Natives
pub mod Published
use stellar_journey.Base.Effect.{Result, returned, thrown}
use stellar_journey.Base.Fallible.{◌>>=◌}
use stellar_journey.Client.Ids.{id_to_hex}

pub data LifecycleKind : Type 0 where
  mandate_created : String → LifecycleKind
  mandate_paused mandate_resumed mandate_revoked : LifecycleKind
  mandate_completed : ℕ → LifecycleKind

pub record LifecycleEvent : Type 0 where
  pub mandate_id : String
  pub payer : String
  pub merchant : String
  pub timestamp : ℕ
  pub ledger : ℕ
  pub tx_hash : String
  pub rpc_event_id : String
  pub kind : LifecycleKind

-- A value as `scValToNative` gives it. A `bigint` and a `number` are the contract's u64 and u32; anything else
-- that is not null or undefined is what each of its properties reads.
pub data Native : Type 0 where
  native_string : String → Native
  native_bytes : List ℕ → Native
  native_bigint native_number : ℕ → Native
  nothing : Native
  native_object : (String → Native) → Native

-- `rpc.Api.EventResponse`.
pub record EventResponse (ScVal : Type 0) : Type 0 where
  pub id : String
  pub ledger : ℕ
  pub tx_hash : String
  pub in_successful_contract_call : Bool
  pub topic : List ScVal
  pub value : ScVal

pub data LifecycleEventKind : Type 0 where
  created paused resumed revoked completed : LifecycleEventKind

abbrev pub kind_name : LifecycleEventKind → String
kind_name created = "mandate_created"
kind_name paused = "mandate_paused"
kind_name resumed = "mandate_resumed"
kind_name revoked = "mandate_revoked"
kind_name completed = "mandate_completed"

-- The kind whose name the set has; `none` where it is not in it.
unfoldable pub lifecycle_event_kind : String → Option LifecycleEventKind
lifecycle_event_kind name =
    if str_eq name "mandate_created"
    then some created
    else (if str_eq name "mandate_paused"
        then some paused
        else (if str_eq name "mandate_resumed"
            then some resumed
            else (if str_eq name "mandate_revoked"
                then some revoked
                else (if str_eq name "mandate_completed" then some completed else none))))

-- The kind of an event by its first topic.
abbrev pub kind_of_topic : Native → Option LifecycleEventKind
kind_of_topic (native_string name) = lifecycle_event_kind name
kind_of_topic _ = none

abbrev pub as_bytes : Native → Option (List ℕ)
as_bytes (native_bytes bytes) = some bytes
as_bytes _ = none

abbrev pub as_string : Native → Option String
as_string (native_string s) = some s
as_string _ = none

abbrev pub as_bigint : Native → Option ℕ
as_bigint (native_bigint n) = some n
as_bigint _ = none

abbrev pub as_number : Native → Option ℕ
as_number (native_number n) = some n
as_number _ = none

-- A topic by its place, which is undefined where there are fewer.
unfoldable pub topic_at : List Native → ℕ → Native
topic_at [] n = nothing
topic_at (topic ∷ topics) zero = topic
topic_at (topic ∷ topics) (suc n) = topic_at topics n

abbrev pub need : {A : Type 0} → Option A → String → Result String A
need none message = thrown message
need (some a) message = returned a

-- The message of a `MandateEventDecodeError`.
abbrev pub mandate_event_decode_error : LifecycleEventKind → String → String → String
mandate_event_decode_error kind what id =
    join "\""
      (join (kind_name kind) (join "\" event's " (join what (join " (rpcEventId=" (join id ")")))))

-- `data[key]`, which throws where `data` is null or undefined.
abbrev pub property : String → String → Native → Result String Native
property type_error key nothing = thrown type_error
property type_error key (native_object read) = returned (read key)
property type_error key _ = returned nothing

module _ {ScVal : Type 0} (sc_val_to_native : ScVal → Native) (type_error : String) where
  abbrev pub event_of :
      EventResponse ScVal → List ℕ → String → String → ℕ → LifecycleKind → LifecycleEvent
  event_of raw bytes payer merchant timestamp kind = record {
    mandate_id = id_to_hex bytes;
    payer = payer;
    merchant = merchant;
    timestamp = timestamp;
    ledger = raw.ledger;
    tx_hash = raw.tx_hash;
    rpc_event_id = raw.id;
    kind = kind;
  }

  -- The `switch` over the kinds, on the data of the event.
  unfoldable pub decode_kind : String → Native → LifecycleEventKind → Result String LifecycleKind
  decode_kind id data_native created = do
    asset ← property type_error "asset" data_native
    address ←
        need (as_string asset)
          (mandate_event_decode_error created "data.asset is not an address" id)
    returned (mandate_created address)
  decode_kind id data_native completed = do
    charges ← property type_error "successful_charges" data_native
    count ←
        need (as_number charges)
          (mandate_event_decode_error completed "data.successful_charges is not a u32" id)
    returned (mandate_completed count)
  decode_kind id data_native paused = returned mandate_paused
  decode_kind id data_native resumed = returned mandate_resumed
  decode_kind id data_native revoked = returned mandate_revoked

  unfoldable pub decode_event :
      EventResponse ScVal → List Native → Native → LifecycleEventKind → Result String LifecycleEvent
  decode_event raw topics data_native kind = do
    bytes ←
        need (as_bytes (topic_at topics 1))
          (mandate_event_decode_error kind "topic[1] (\"mandate_id\") is not bytes" raw.id)
    payer ←
        need (as_string (topic_at topics 2))
          (mandate_event_decode_error kind "topic[2] (\"payer\") is not an address" raw.id)
    merchant ←
        need (as_string (topic_at topics 3))
          (mandate_event_decode_error kind "topic[3] (\"merchant\") is not an address" raw.id)
    time ← property type_error "timestamp" data_native
    timestamp ←
        need (as_bigint time) (mandate_event_decode_error kind "data.timestamp is not a u64" raw.id)
    lifecycle_kind ← decode_kind raw.id data_native kind
    returned (event_of raw bytes payer merchant timestamp lifecycle_kind)

  -- `undefined` is `none`.
  abbrev pub decode_if_known :
      EventResponse ScVal
      → List Native
      → Native
      → Option LifecycleEventKind
      → Result String (Option LifecycleEvent)
  decode_if_known raw topics data_native none = returned none
  decode_if_known raw topics data_native (some kind) = do
    event ← decode_event raw topics data_native kind
    returned (some event)

  unfoldable pub decode_mandate_lifecycle_event :
      EventResponse ScVal → Result String (Option LifecycleEvent)
  decode_mandate_lifecycle_event raw =
      let topics = map sc_val_to_native raw.topic in
      decode_if_known raw topics (sc_val_to_native raw.value) (kind_of_topic (topic_at topics 0))
