-- ===== src/Relayer/Indexer/Sync.antt =====
-- apps/relayer/src/indexer/mandate-index-sync.ts, and `enqueueDeterministicWebhook` of
-- apps/relayer/src/webhook.ts: what one event of the chain writes.
use stellar_journey.Base.{
  ℕ, ◌+◌, String, Bool, true, false, not, ◌&&◌, Option, none, some, List, [], ◌∷◌, str_eq, leb,
  ◌==◌, join, count_where, find_where, update_where,
}
use stellar_journey.Base.Effect.{Run, pure, throw, ◌>>=◌, ◌>>◌, modify, transaction}
use stellar_journey.Client.Events.{
  LifecycleKind, mandate_created, mandate_paused, mandate_resumed, mandate_revoked,
  mandate_completed, LifecycleEvent,
}
use stellar_journey.Api.DeliveryStatus.{pending}
use stellar_journey.Store.{MandateRow, Merchant, WebhookDelivery, Payload, Fault, rejected}
use stellar_journey.Relayer.Gateway.{
  MandateRead, mandate_found, mandate_read_error, mandate_unavailable,
}

pub record IndexerCursorState : Type 0 where
  pub last_ledger : ℕ
  pub cursor : String

-- The tables of the indexer; the cursor's table has one row at most, of a fixed key.
pub record IndexStore : Type 0 where
  pub merchants : List Merchant
  pub mandates : List MandateRow
  pub deliveries : List WebhookDelivery
  pub cursor : Option IndexerCursorState
  pub clock : ℕ
  pub uuids : ℕ

abbrev pub IndexJob : Type 0 → Type 0
IndexJob A = Run IndexStore Fault A

abbrev pub event_to_webhook : LifecycleKind → Option String
event_to_webhook (mandate_created asset) = some "mandate.active"
event_to_webhook mandate_paused = some "mandate.paused"
event_to_webhook mandate_resumed = some "mandate.resumed"
event_to_webhook mandate_revoked = some "mandate.revoked"
event_to_webhook (mandate_completed charges) = none

abbrev pub event_to_status : LifecycleKind → String
event_to_status (mandate_created asset) = "Active"
event_to_status mandate_paused = "Paused"
event_to_status mandate_resumed = "Active"
event_to_status mandate_revoked = "Revoked"
event_to_status (mandate_completed charges) = "Completed"

abbrev pub is_mandate : String → MandateRow → Bool
is_mandate id row = str_eq row.mandate_id id

abbrev pub is_wallet : String → Merchant → Bool
is_wallet wallet_address row = str_eq row.wallet_address wallet_address

abbrev pub id_of_merchant : Option Merchant → Option String
id_of_merchant none = none
id_of_merchant (some merchant) = some merchant.id

abbrev pub merchant_or : Option String → Option MandateRow → Option String
merchant_or by_wallet none = by_wallet
merchant_or by_wallet (some row) = some row.merchant_id

unfoldable pub resolve_merchant : LifecycleEvent → IndexStore → Option String
resolve_merchant event w =
    merchant_or (id_of_merchant (find_where (is_wallet event.merchant) w.merchants))
      (find_where (is_mandate event.mandate_id) w.mandates)

-- A fresh read, whose failure is thrown on.
abbrev pub asset_of_read : MandateRead → IndexJob String
asset_of_read (mandate_found mandate) = pure mandate.asset
asset_of_read (mandate_read_error name) = throw rejected
asset_of_read mandate_unavailable = throw rejected

-- The index may follow an event of a ledger that is not before the last one.
abbrev pub may_index : Option ℕ → ℕ → Bool
may_index none ledger = true
may_index (some last) ledger = leb last ledger

abbrev pub is_event : String → WebhookDelivery → Bool
is_event event_id row = str_eq row.event_id event_id

abbrev pub build_webhook_payload : LifecycleEvent → LifecycleKind → Payload
build_webhook_payload event (mandate_created asset) =
    ("mandateId", event.mandate_id)
    ∷ ("payerAddress", event.payer)
    ∷ ("merchantAddress", event.merchant)
    ∷ ("assetAddress", asset)
    ∷ []
build_webhook_payload event _ =
    ("mandateId", event.mandate_id)
    ∷ ("payerAddress", event.payer)
    ∷ ("merchantAddress", event.merchant)
    ∷ []

abbrev pub deterministic_delivery :
    String → ℕ → String → String → String → Payload → WebhookDelivery
deterministic_delivery id clock merchant_id event_id event_type payload = record {
  id = id;
  merchant_id = merchant_id;
  event_id = event_id;
  event_type = event_type;
  payload = payload;
  attempt_count = 0;
  next_attempt_at = none;
  status = pending;
  created_at = clock;
}

-- `skipDuplicates`: a row whose event is there is not added.
abbrev pub add_unless : Bool → WebhookDelivery → List WebhookDelivery → List WebhookDelivery
add_unless true row rows = rows
add_unless false row rows = row ∷ rows

module _ (uuid : ℕ → String) (get_mandate : String → MandateRead) where
  unfoldable pub enqueue_deterministic_webhook :
      String → String → String → Payload → IndexJob (Unit {0})
  enqueue_deterministic_webhook merchant_id event_id event_type payload = modify (λ w. record w {
    deliveries =
        add_unless (not (count_where (is_event event_id) w.deliveries == 0))
          (deterministic_delivery (uuid w.uuids) w.clock merchant_id event_id event_type payload)
          w.deliveries;
    uuids = w.uuids + 1;
  })

  unfoldable pub resolve_asset_address_for_new_row :
      LifecycleEvent → LifecycleKind → IndexJob String
  resolve_asset_address_for_new_row event (mandate_created asset) = pure asset
  resolve_asset_address_for_new_row event _ = asset_of_read (get_mandate event.mandate_id)

  abbrev pub new_mandate : LifecycleEvent → String → String → ℕ → MandateRow
  new_mandate event merchant_id asset clock = record {
    mandate_id = event.mandate_id;
    merchant_id = merchant_id;
    payer_address = event.payer;
    merchant_address = event.merchant;
    asset_address = asset;
    status = event_to_status event.kind;
    contract_state_version = 1;
    last_indexed_ledger = some event.ledger;
    last_indexed_at = some clock;
    created_at = clock;
  }

  -- `DO UPDATE SET`.
  abbrev pub indexed : LifecycleEvent → String → String → ℕ → MandateRow → MandateRow
  indexed event merchant_id asset clock row = record row {
    merchant_id = merchant_id;
    payer_address = event.payer;
    merchant_address = event.merchant;
    asset_address = asset;
    status = event_to_status event.kind;
    contract_state_version = row.contract_state_version + 1;
    last_indexed_ledger = some event.ledger;
    last_indexed_at = some clock;
  }

  abbrev pub follows : LifecycleEvent → MandateRow → Bool
  follows event row =
      is_mandate event.mandate_id row && may_index row.last_indexed_ledger event.ledger

  abbrev pub insert_mandate : LifecycleEvent → String → String → IndexStore → IndexStore
  insert_mandate event merchant_id asset w = record w {
    mandates = new_mandate event merchant_id asset w.clock ∷ w.mandates;
  }

  abbrev pub update_mandate : LifecycleEvent → String → String → IndexStore → IndexStore
  update_mandate event merchant_id asset w = record w {
    mandates = update_where (follows event) (indexed event merchant_id asset w.clock) w.mandates;
  }

  unfoldable pub write_mandate : LifecycleEvent → String → Option MandateRow → IndexJob (Unit {0})
  write_mandate event merchant_id none = do
    asset ← resolve_asset_address_for_new_row event event.kind
    modify (insert_mandate event merchant_id asset)
  write_mandate event merchant_id (some row) =
      modify (update_mandate event merchant_id row.asset_address)

  unfoldable pub upsert_mandate_index_from_event : LifecycleEvent → String → IndexJob (Unit {0})
  upsert_mandate_index_from_event event merchant_id w =
      write_mandate event merchant_id (find_where (is_mandate event.mandate_id) w.mandates) w

  unfoldable pub announce_event : LifecycleEvent → String → Option String → IndexJob (Unit {0})
  announce_event event merchant_id none = pure tt
  announce_event event merchant_id (some event_type) =
      enqueue_deterministic_webhook merchant_id (join "chain:" event.rpc_event_id) event_type
        (build_webhook_payload event event.kind)

  unfoldable pub apply_for : LifecycleEvent → Option String → IndexJob (Unit {0})
  apply_for event none = pure tt
  apply_for event (some merchant_id) = transaction (
      upsert_mandate_index_from_event event merchant_id
      >> announce_event event merchant_id (event_to_webhook event.kind))

  unfoldable pub apply_mandate_lifecycle_event : LifecycleEvent → IndexJob (Unit {0})
  apply_mandate_lifecycle_event event w = apply_for event (resolve_merchant event w) w
