-- ===== src/Api/DeliveryStatus/Transition/Laws.antt =====
-- The guarded transition of a delivery: when it is made, and what it leaves.
use stellar_journey.Base.{
  ◌≤◌, ◌≡◌, ◌≢◌, ◌↔◌, refl, String, true, some, List, arith, count_where, find_where,
  update_where_of_zero, count_where_of_unique, find_where-update, find_where-update_ne,
  count_where-update, found_passes, Bool-cases, Bool, inl, inr, ◌&&◌, if◌then◌else◌, eq_iff,
}
use stellar_journey.Base.Effect.{returned, thrown}
use stellar_journey.Store.{WebhookDelivery, World, is_delivery, find_delivery}
use stellar_journey.Api.ChargeStatus.Transition.{illegal}
use stellar_journey.Api.DeliveryStatus.{
  WebhookDeliveryStatus, pending, delivering, delivered, retry_scheduled, dead_letter,
  eq_delivery_status, is_legal_delivery,
}
use stellar_journey.Api.DeliveryStatus.Transition.{
  DeliveryPatch, moved_delivery, is_delivery_at, move_deliveries, transition_delivery,
}

pub eq_delivery_status_iff :
    (a b : WebhookDeliveryStatus) → (eq_delivery_status a b ≡ true) ↔ (a ≡ b)
eq_delivery_status_iff pending b = ground arith
eq_delivery_status_iff delivering b = ground arith
eq_delivery_status_iff delivered b = ground arith
eq_delivery_status_iff retry_scheduled b = ground arith
eq_delivery_status_iff dead_letter b = ground arith

-- No two rows share a key.
abbrev pub HasUniqueDeliveries : List WebhookDelivery → Type 0
HasUniqueDeliveries rows = (id : String) → count_where (is_delivery id) rows ≤ 1

module _ (id : String) (from : WebhookDeliveryStatus) where
  is_at-is_delivery :
      (row : WebhookDelivery) → is_delivery_at id from row ≡ true → is_delivery id row ≡ true
  is_at-is_delivery row h = ground arith

  count-is_delivery_at :
      (rows : List WebhookDelivery) (row : WebhookDelivery)
      → HasUniqueDeliveries rows
      → find_where (is_delivery id) rows ≡ some row
      → count_where (is_delivery_at id from) rows ≡ (if is_delivery_at id from row then 1 else 0)
  count-is_delivery_at rows row unique e =
      count_where_of_unique (is_delivery_at id from) (is_delivery id) is_at-is_delivery rows row
        (unique id) e

module _ (id : String) (from to : WebhookDeliveryStatus) (patch : DeliveryPatch) (w : World)
    (row : WebhookDelivery) (unique : HasUniqueDeliveries w.deliveries)
    (found : find_delivery id w ≡ some row) where
  is_row : is_delivery id row ≡ true
  is_row = found_passes (is_delivery id) w.deliveries row found

  -- Where delivery keys are unique and a row has the key, a transition of a delivery is made
  -- exactly when its edge is legal and the row stands at its beginning; else it throws an invalid
  -- state transition and changes nothing.
  pub transition_delivery_lem : transition_delivery id from to patch w ≡ (
      if is_legal_delivery from to && eq_delivery_status row.status from
      then (returned tt, move_deliveries id from to patch w)
      else (thrown illegal, w))
  unfolding transition_delivery
  transition_delivery_lem = elim (Bool-cases (is_legal_delivery from to)) [
    | inr bad ↦ rw bad
    | inl legal ↦ elim (Bool-cases (eq_delivery_status row.status from)) [
      | inl at ↦ rw (legal, at, count_found at)
      | inr elsewhere ↦ rw (
        legal,
        elsewhere,
        count_found elsewhere,
        update_where_of_zero (is_delivery_at id from) (moved_delivery to patch) w.deliveries
            (count_found elsewhere),
      )
    ]
  ]
    where
      count_found :
          {b : Bool}
          → eq_delivery_status row.status from ≡ b
          → count_where (is_delivery_at id from) w.deliveries ≡ (if b then 1 else 0)
      count_found at =
          ground (arith, count-is_delivery_at id from w.deliveries row unique found, is_row)

  -- The row after a transition that was made.
  pub find-move_deliveries :
      row.status ≡ from
      → find_delivery id (move_deliveries id from to patch w) ≡ some (moved_delivery to patch row)
  find-move_deliveries at = ground (
    arith,
    find_where-update (is_delivery_at id from) (is_delivery id) (moved_delivery to patch)
        (λ r. refl) w.deliveries row found,
    is_row,
    (eq_delivery_status_iff row.status from).1 at,
  )

  pub move_deliveries_unique : HasUniqueDeliveries (move_deliveries id from to patch w).deliveries
  move_deliveries_unique other = ground (
    arith,
    count_where-update (is_delivery_at id from) (is_delivery other) (moved_delivery to patch)
        (λ r. refl) w.deliveries,
    unique other,
  )

  -- Every other row is as before.
  pub find-move_deliveries_ne :
      (other : String)
      → other ≢ id
      → find_delivery other (move_deliveries id from to patch w) ≡ find_delivery other w
  find-move_deliveries_ne other ne =
      find_where-update_ne (is_delivery_at id from) (is_delivery other) (moved_delivery to patch)
        (λ r. refl) (λ r h. ground (arith, eq_iff r.id other, eq_iff r.id id)) w.deliveries
