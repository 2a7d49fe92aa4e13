-- ===== src/Client/Events/Natives.antt =====
-- What the tests of packages/contract-client/src/events.ts say of a value of the SDK that they let through.
use stellar_journey.Base.{
  ℕ, ◌⊎◌, inl, inr, ◌≢◌, ◌≡◌, refl, sym, ap, ◌∙◌, String, Option, none, some, List, eq_iff, arith,
}
use stellar_journey.Base.Effect.{returned}
use stellar_journey.Client.Events.{
  Native, native_string, native_bytes, native_bigint, native_number, nothing, native_object,
  LifecycleEventKind, created, paused, resumed, revoked, completed, kind_name, lifecycle_event_kind,
  kind_of_topic, as_bytes, as_string, as_bigint, as_number, need, property,
}

-- A field of the map that the contract publishes.
abbrev pub HasField : Native → String → Native → Type 0
HasField (native_object read) key field = read key ≡ field
HasField _ key field = ⊥

pub lifecycle_event_kind_sound :
    (name : String) (kind : LifecycleEventKind)
    → lifecycle_event_kind name ≡ some kind
    → name ≡ kind_name kind
unfolding lifecycle_event_kind
lifecycle_event_kind_sound name kind h = ground (
  arith,
  eq_iff name "mandate_created",
  eq_iff name "mandate_paused",
  eq_iff name "mandate_resumed",
  eq_iff name "mandate_revoked",
  eq_iff name "mandate_completed",
)

pub lifecycle_event_kind-kind_name :
    (kind : LifecycleEventKind) → lifecycle_event_kind (kind_name kind) ≡ some kind
unfolding lifecycle_event_kind
lifecycle_event_kind-kind_name created = refl
lifecycle_event_kind-kind_name paused = refl
lifecycle_event_kind-kind_name resumed = refl
lifecycle_event_kind-kind_name revoked = refl
lifecycle_event_kind-kind_name completed = refl

pub kind_of_topic_sound :
    (topic : Native) (kind : LifecycleEventKind)
    → kind_of_topic topic ≡ some kind
    → topic ≡ native_string (kind_name kind)
kind_of_topic_sound (native_string name) kind h =
    ap native_string (lifecycle_event_kind_sound name kind h)
kind_of_topic_sound (native_bytes bytes) kind h = ground arith
kind_of_topic_sound (native_bigint n) kind h = ground arith
kind_of_topic_sound (native_number n) kind h = ground arith
kind_of_topic_sound nothing kind h = ground arith
kind_of_topic_sound (native_object read) kind h = ground arith

pub need_inv :
    {A : Type 0} (o : Option A) (message : String) (a : A)
    → need o message ≡ returned a
    → o ≡ some a
need_inv none message a h = ground arith
need_inv (some b) message a h = ground arith

pub some_inj : {A : Type 0} {a b : A} → some a ≡ some b → a ≡ b
some_inj h = ground arith

pub as_bytes_inv : (n : Native) (a : List ℕ) → as_bytes n ≡ some a → n ≡ native_bytes a
as_bytes_inv (native_string t) a h = ground arith
as_bytes_inv (native_bytes bs) a h = ground arith
as_bytes_inv (native_bigint m) a h = ground arith
as_bytes_inv (native_number m) a h = ground arith
as_bytes_inv nothing a h = ground arith
as_bytes_inv (native_object read) a h = ground arith

pub as_string_inv : (n : Native) (a : String) → as_string n ≡ some a → n ≡ native_string a
as_string_inv (native_string t) a h = ground arith
as_string_inv (native_bytes bs) a h = ground arith
as_string_inv (native_bigint m) a h = ground arith
as_string_inv (native_number m) a h = ground arith
as_string_inv nothing a h = ground arith
as_string_inv (native_object read) a h = ground arith

pub as_bigint_inv : (n : Native) (a : ℕ) → as_bigint n ≡ some a → n ≡ native_bigint a
as_bigint_inv (native_string t) a h = ground arith
as_bigint_inv (native_bytes bs) a h = ground arith
as_bigint_inv (native_bigint m) a h = ground arith
as_bigint_inv (native_number m) a h = ground arith
as_bigint_inv nothing a h = ground arith
as_bigint_inv (native_object read) a h = ground arith

pub as_number_inv : (n : Native) (a : ℕ) → as_number n ≡ some a → n ≡ native_number a
as_number_inv (native_string t) a h = ground arith
as_number_inv (native_bytes bs) a h = ground arith
as_number_inv (native_bigint m) a h = ground arith
as_number_inv (native_number m) a h = ground arith
as_number_inv nothing a h = ground arith
as_number_inv (native_object read) a h = ground arith

pub property_inv :
    (type_error key : String) (fields field : Native)
    → property type_error key fields ≡ returned field
    → (field ≡ nothing) ⊎ HasField fields key field
property_inv type_error key (native_string t) field h = ground arith
property_inv type_error key (native_bytes bs) field h = ground arith
property_inv type_error key (native_bigint m) field h = ground arith
property_inv type_error key (native_number m) field h = ground arith
property_inv type_error key nothing field h = ground arith
property_inv type_error key (native_object read) field h = ground arith

-- A field that reads as something has been published.
pub has_field :
    {A : Type 0} (type_error key : String) (fields field : Native) (read : Native → Option A)
    (a : A)
    → property type_error key fields ≡ returned field
    → read nothing ≡ none
    → read field ≡ some a
    → HasField fields key field
has_field type_error key fields field read a found absent got =
    elim (property_inv type_error key fields field found) [
      | inl gone ↦ absurd (none≢some a (sym absent ∙ ap read (sym gone) ∙ got))
      | inr has ↦ has
    ]
  where
    none≢some : {A : Type 0} (a : A) → none ≢ some a
    none≢some a e = ground arith

-- The other way: what is published is read.
pub property_lem :
    (type_error key : String) (fields field : Native)
    → HasField fields key field
    → property type_error key fields ≡ returned field
property_lem type_error key (native_object read) field h = ap returned h
property_lem type_error key (native_string t) field h = absurd h
property_lem type_error key (native_bytes bs) field h = absurd h
property_lem type_error key (native_bigint m) field h = absurd h
property_lem type_error key (native_number m) field h = absurd h
property_lem type_error key nothing field h = absurd h
