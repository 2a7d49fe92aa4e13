-- ===== src/Relayer/Indexer/Keeps.antt =====
-- What every step of the indexer keeps: no event is announced twice, and no mandate's row goes back
-- to an earlier ledger.
use stellar_journey.Base.{
  ℕ, ◌≤◌, ◌≡◌, ◌∙◌, sym, ap, subst, refl, String, true, false, not, Option, none, some, List, ◌∷◌,
  arith, eq_iff, ◌==◌, count_where, find_where, update_where, find_where-update, if◌then◌else◌,
  Bool-cases, inl, inr,
}
use stellar_journey.Base.Effect.{
  Result, returned, thrown, and_then, settle, ◌>>=◌, ◌>>◌, transaction,
}
use stellar_journey.Store.{WebhookDelivery, Payload, Fault}
use stellar_journey.Relayer.Gateway.{
  MandateRead, mandate_found, mandate_read_error, mandate_unavailable,
}
use stellar_journey.Store.{MandateRow}
use stellar_journey.Client.Events.{
  LifecycleKind, mandate_created, mandate_paused, mandate_resumed, mandate_revoked,
  mandate_completed, LifecycleEvent,
}
use stellar_journey.Relayer.Indexer.Sync.{
  IndexStore, IndexJob, event_to_webhook, is_mandate, resolve_merchant, asset_of_read, may_index,
  is_event, add_unless, enqueue_deterministic_webhook, resolve_asset_address_for_new_row,
  new_mandate, indexed, follows, insert_mandate, write_mandate, upsert_mandate_index_from_event,
  announce_event, apply_for, apply_mandate_lifecycle_event,
}

-- Every event is announced once at most.
abbrev pub HasUniqueEvents : List WebhookDelivery → Type 0
HasUniqueEvents rows = (id : String) → count_where (is_event id) rows ≤ 1

-- A row has been indexed at a ledger or later.
abbrev pub IsAtLeast : ℕ → Option ℕ → Type 0
IsAtLeast ledger none = ⊥
IsAtLeast ledger (some last) = ledger ≤ last

abbrev pub IsIndexed : String → ℕ → List MandateRow → Type 0
IsIndexed id ledger rows =
    (row : MandateRow) × (find_where (is_mandate id) rows ≡ some row)
    × IsAtLeast ledger row.last_indexed_ledger

pub record Keeps (w w' : IndexStore) : Type 0 where
  pub events : HasUniqueEvents w.deliveries → HasUniqueEvents w'.deliveries
  pub ledgers :
      (id : String) (ledger : ℕ) → IsIndexed id ledger w.mandates → IsIndexed id ledger w'.mandates

pub Keeps-same :
    (w w' : IndexStore) → w.deliveries ≡ w'.deliveries → w.mandates ≡ w'.mandates → Keeps w w'
Keeps-same w w' d m = record {
  events = λ h. subst HasUniqueEvents d h;
  ledgers = λ id ledger h. subst (IsIndexed id ledger) m h;
}

abbrev pub IsKeeping : {A : Type 0} → IndexJob A → Type 0
IsKeeping m = (w : IndexStore) → Keeps w (m w).1

pub Keeps-trans : (u v w : IndexStore) → Keeps u v → Keeps v w → Keeps u w
Keeps-trans u v w h k = record {
  events = λ e. k.events (h.events e);
  ledgers = λ id ledger e. k.ledgers id ledger (h.ledgers id ledger e);
}

module _ {A B : Type 0} where
  pub bind-IsKeeping :
      (m : IndexJob A) (k : A → IndexJob B)
      → IsKeeping m
      → ((a : A) → IsKeeping (k a))
      → IsKeeping (m >>= k)
  bind-IsKeeping m k hm hk w = of_end (m w) (hm w)
    where
      of_end : (end : Result Fault A × IndexStore) → Keeps w end.1 → Keeps w (and_then k end).1
      of_end (returned a, w') h = Keeps-trans w w' (k a w').1 h (hk a w')
      of_end (thrown e, w') h = h

module _ {A : Type 0} where
  transaction-IsKeeping : (m : IndexJob A) → IsKeeping m → IsKeeping (transaction m)
  transaction-IsKeeping m hm w = of_end (m w) (hm w)
    where
      of_end : (end : Result Fault A × IndexStore) → Keeps w end.1 → Keeps w (settle w end).1
      of_end (returned a, w') h = h
      of_end (thrown e, w') h = Keeps-same w w refl refl

-- A row that is added where its event is not there keeps the events apart.
add_unless_unique :
    (rows : List WebhookDelivery) (event_id : String) (row : WebhookDelivery)
    → row.event_id ≡ event_id
    → HasUniqueEvents rows
    → HasUniqueEvents (add_unless (not (count_where (is_event event_id) rows == 0)) row rows)
unfolding count_where
add_unless_unique rows event_id row named h id =
    elim (Bool-cases (count_where (is_event event_id) rows == 0)) [
      | inl free ↦ rw free (
          ground (
            arith,
            h id,
            eq_iff row.event_id id,
            named,
            λ (e : event_id ≡ id). ap (λ k. count_where (is_event k) rows) e,
          ))
      | inr taken ↦ rw taken (h id)
    ]

at_least_later :
    (ledger later : ℕ) (last : Option ℕ)
    → may_index last later ≡ true
    → IsAtLeast ledger last
    → ledger ≤ later
at_least_later ledger later none may h = absurd h
at_least_later ledger later (some last) may h = ground arith

module _ (uuid : ℕ → String) (get_mandate : String → MandateRead) where
  enqueue-IsKeeping :
      (merchant_id event_id event_type : String) (payload : Payload)
      → IsKeeping
          (enqueue_deterministic_webhook uuid get_mandate merchant_id event_id event_type payload)
  unfolding enqueue_deterministic_webhook count_where
  enqueue-IsKeeping merchant_id event_id event_type payload w = record {
    events = add_unless_unique w.deliveries event_id _ refl;
    ledgers = λ id ledger h. h;
  }

  update-IsIndexed :
      (event : LifecycleEvent) (merchant_id asset : String) (clock : ℕ) (rows : List MandateRow)
      (id : String) (ledger : ℕ)
      → IsIndexed id ledger rows
      → IsIndexed id ledger (
          update_where
            (follows uuid get_mandate event)
            (indexed uuid get_mandate event merchant_id asset clock)
            rows)
  update-IsIndexed event merchant_id asset clock rows id ledger (row, found, at_least) =
      elim (Bool-cases (follows uuid get_mandate event row)) [
        | inl yes_follows ↦ (
          indexed uuid get_mandate event merchant_id asset clock row,
          updated ∙ rw yes_follows,
          at_least_later ledger event.ledger row.last_indexed_ledger (ground arith) at_least,
        )
        | inr older ↦ (row, updated ∙ rw older, at_least)
      ]
    where
      updated :
          find_where (is_mandate id) (
            update_where
              (follows uuid get_mandate event)
              (indexed uuid get_mandate event merchant_id asset clock)
              rows)
          ≡ some (
              if follows uuid get_mandate event row
              then indexed uuid get_mandate event merchant_id asset clock row
              else row)
      updated =
          find_where-update (follows uuid get_mandate event) (is_mandate id)
            (indexed uuid get_mandate event merchant_id asset clock) (λ r. refl) rows row found

  -- A new row hides no other: its mandate had none.
  insert-IsIndexed :
      (event : LifecycleEvent) (new : MandateRow) (rows : List MandateRow) (id : String)
      (ledger : ℕ)
      → new.mandate_id ≡ event.mandate_id
      → find_where (is_mandate event.mandate_id) rows ≡ none
      → IsIndexed id ledger rows
      → IsIndexed id ledger (new ∷ rows)
  unfolding find_where
  insert-IsIndexed event new rows id ledger named absent (row, found, at_least) =
      (row, rw other found, at_least)
    where
      differs : new.mandate_id ≡ id → ⊥
      differs e = cc (sym absent ∙ ap (λ k. find_where (is_mandate k) rows) (sym named ∙ e) ∙ found)

      other : is_mandate id new ≡ false
      other = ground (arith, eq_iff new.mandate_id id, differs)

  asset_of_read-world : (read : MandateRead) (w : IndexStore) → (asset_of_read read w).1 ≡ w
  asset_of_read-world (mandate_found mandate) w = refl
  asset_of_read-world (mandate_read_error name) w = refl
  asset_of_read-world mandate_unavailable w = refl

  resolve_asset-world :
      (event : LifecycleEvent) (kind : LifecycleKind) (w : IndexStore)
      → (resolve_asset_address_for_new_row uuid get_mandate event kind w).1 ≡ w
  unfolding resolve_asset_address_for_new_row
  resolve_asset-world event (mandate_created asset) w = refl
  resolve_asset-world event mandate_paused w = asset_of_read-world (get_mandate event.mandate_id) w
  resolve_asset-world event mandate_resumed w = asset_of_read-world (get_mandate event.mandate_id) w
  resolve_asset-world event mandate_revoked w = asset_of_read-world (get_mandate event.mandate_id) w
  resolve_asset-world event (mandate_completed n) w =
      asset_of_read-world (get_mandate event.mandate_id) w

  write_mandate-Keeps :
      (event : LifecycleEvent) (merchant_id : String) (found : Option MandateRow) (w : IndexStore)
      → find_where (is_mandate event.mandate_id) w.mandates ≡ found
      → Keeps w (write_mandate uuid get_mandate event merchant_id found w).1
  unfolding write_mandate
  write_mandate-Keeps event merchant_id (some row) w here = record {
    events = λ h. h;
    ledgers = update-IsIndexed event merchant_id row.asset_address w.clock w.mandates;
  }
  write_mandate-Keeps event merchant_id none w absent =
      of_asset (resolve_asset_address_for_new_row uuid get_mandate event event.kind w)
        (resolve_asset-world event event.kind w)
    where
      of_asset :
          (end : Result Fault String × IndexStore)
          → end.1 ≡ w
          → Keeps w
              (and_then
                (λ asset v.
                  (returned tt, insert_mandate uuid get_mandate event merchant_id asset v))
                end).1
      of_asset (returned asset, v) same =
          subst (λ v. Keeps w (insert_mandate uuid get_mandate event merchant_id asset v))
            (sym same)
            (record {
              events = λ h. h;
              ledgers = λ id ledger.
                  insert-IsIndexed event
                    (new_mandate uuid get_mandate event merchant_id asset w.clock) w.mandates id
                    ledger refl absent;
            })
      of_asset (thrown e, v) same = subst (Keeps w) (sym same) (Keeps-same w w refl refl)

  upsert-IsKeeping :
      (event : LifecycleEvent) (merchant_id : String)
      → IsKeeping (upsert_mandate_index_from_event uuid get_mandate event merchant_id)
  unfolding upsert_mandate_index_from_event
  upsert-IsKeeping event merchant_id w = write_mandate-Keeps event merchant_id _ w refl

  announce-IsKeeping :
      (event : LifecycleEvent) (merchant_id : String) (event_type : Option String)
      → IsKeeping (announce_event uuid get_mandate event merchant_id event_type)
  unfolding announce_event
  announce-IsKeeping event merchant_id none = λ w. Keeps-same w w refl refl
  announce-IsKeeping event merchant_id (some event_type) =
      enqueue-IsKeeping merchant_id _ event_type _

  apply_for-IsKeeping :
      (event : LifecycleEvent) (merchant : Option String)
      → IsKeeping (apply_for uuid get_mandate event merchant)
  unfolding apply_for
  apply_for-IsKeeping event none = λ w. Keeps-same w w refl refl
  apply_for-IsKeeping event (some merchant_id) =
      transaction-IsKeeping
        (upsert_mandate_index_from_event uuid get_mandate event merchant_id
          >> announce_event uuid get_mandate event merchant_id (event_to_webhook event.kind))
        (bind-IsKeeping (upsert_mandate_index_from_event uuid get_mandate event merchant_id)
          (λ u. announce_event uuid get_mandate event merchant_id (event_to_webhook event.kind))
          (upsert-IsKeeping event merchant_id)
          (λ u. announce-IsKeeping event merchant_id (event_to_webhook event.kind)))

  -- Applying one event, new or old and however often, keeps that no event is announced twice, and
  -- every mandate that was indexed at a ledger stays indexed at that ledger or a later one.
  pub apply_mandate_lifecycle_event-Keeps :
      (event : LifecycleEvent) (w : IndexStore)
      → Keeps w (apply_mandate_lifecycle_event uuid get_mandate event w).1
  unfolding apply_mandate_lifecycle_event
  apply_mandate_lifecycle_event-Keeps event w =
      apply_for-IsKeeping event (resolve_merchant event w) w
