-- ===== src/Client/Tests.antt =====
-- Ids and events on small inputs.
use stellar_journey.Base.{
  ℕ, ◌≡◌, ◌↔◌, refl, String, true, some, List, [], ◌∷◌, str_eq, if◌then◌else◌,
}
use stellar_journey.Base.Effect.{returned}
use stellar_journey.Client.Ids.{id_to_hex, hex_to_id, are_bytes, hex_to_id-id_to_hex}
use stellar_journey.Client.Events.{
  LifecycleEvent, mandate_created, Native, native_string, native_bytes, native_bigint, nothing,
  native_object, EventResponse, decode_mandate_lifecycle_event,
}
use stellar_journey.Client.Events.Published.{IsPublished, decode_mandate_lifecycle_event_iff}

abbrev pub id : List ℕ
id =
    1 ∷ 2 ∷ 3 ∷ 4 ∷ 5 ∷ 6 ∷ 7 ∷ 8 ∷ 9 ∷ 10 ∷ 11 ∷ 12 ∷ 13 ∷ 14 ∷ 15 ∷ 16 ∷ 17 ∷ 18 ∷ 19 ∷ 20 ∷ 21
    ∷ 22 ∷ 23 ∷ 24 ∷ 25 ∷ 26 ∷ 27 ∷ 28 ∷ 29 ∷ 30 ∷ 160 ∷ 255 ∷ []

bytes : are_bytes id ≡ true
unfolding are_bytes
bytes = refl

id_text : id_to_hex (10 ∷ 255 ∷ []) ≡ "0aff"
unfolding id_to_hex
id_text = refl

id_read : hex_to_id (id_to_hex id) ≡ some id
id_read = hex_to_id-id_to_hex id refl bytes

-- The data of a created mandate.
abbrev pub fields : String → Native
fields key =
    if str_eq key "timestamp"
    then native_bigint 5
    else (if str_eq key "asset" then native_string "usdc" else nothing)

abbrev pub raw : EventResponse Native
raw = record {
  id = "e1";
  ledger = 60;
  tx_hash = "hash";
  in_successful_contract_call = true;
  topic =
      native_string "mandate_created"
      ∷ native_bytes id
      ∷ native_string "payer"
      ∷ native_string "wallet"
      ∷ [];
  value = native_object fields;
}

abbrev pub event : LifecycleEvent
event = record {
  mandate_id = id_to_hex id;
  payer = "payer";
  merchant = "wallet";
  timestamp = 5;
  ledger = 60;
  tx_hash = "hash";
  rpc_event_id = "e1";
  kind = mandate_created "usdc";
}

decode_mandate_lifecycle_event_iff_example :
    (decode_mandate_lifecycle_event (λ v. v) "TypeError" raw ≡ returned (some event))
    ↔ IsPublished (λ v. v) raw event
decode_mandate_lifecycle_event_iff_example =
    decode_mandate_lifecycle_event_iff (λ v. v) "TypeError" raw event

decoded : decode_mandate_lifecycle_event (λ v. v) "TypeError" raw ≡ returned (some event)
unfolding decode_mandate_lifecycle_event stellar_journey.Client.Events.topic_at
    stellar_journey.Client.Events.lifecycle_event_kind stellar_journey.Client.Events.decode_event
    stellar_journey.Client.Events.decode_kind
decoded = refl
