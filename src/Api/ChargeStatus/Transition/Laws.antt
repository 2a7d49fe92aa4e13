-- ===== src/Api/ChargeStatus/Transition/Laws.antt =====
-- The guarded transition: when it is made, what it leaves alone, and that of two callers one wins.
use stellar_journey.Base.{
  ◌≡◌, subst, String, true, false, some, List, arith, count_where, find_where, update_where_of_zero,
  count_where_of_unique, count_where-update_self, found_passes, Bool-cases, Bool, inl, inr, ◌&&◌,
  if◌then◌else◌,
}
use stellar_journey.Base.Effect.{returned, thrown}
use stellar_journey.Store.{ChargeRequest, World, is_charge, find_charge}
use stellar_journey.Store.Charges.{HasUniqueIds}
use stellar_journey.Api.ChargeStatus.{ChargeRequestStatus, eq_status, is_legal}
use stellar_journey.Api.ChargeStatus.Graph.{eq_status_iff, not_legal_self}
use stellar_journey.Api.ChargeStatus.Transition.{
  ChargePatch, moved, is_at, illegal, move_rows, transition,
}

module _ (id : String) (from : ChargeRequestStatus) where
  is_at-is_charge : (row : ChargeRequest) → is_at id from row ≡ true → is_charge id row ≡ true
  is_at-is_charge row h = ground arith

  -- How many rows the guard lets through, by the row of the key.
  count-is_at :
      (rows : List ChargeRequest) (row : ChargeRequest)
      → HasUniqueIds rows
      → find_where (is_charge id) rows ≡ some row
      → count_where (is_at id from) rows ≡ (if is_at id from row then 1 else 0)
  count-is_at rows row unique e =
      count_where_of_unique (is_at id from) (is_charge id) is_at-is_charge rows row (unique id) e

module _ (id : String) (from to : ChargeRequestStatus) (patch : ChargePatch) (w : World) where
  pub transition_made :
      is_legal from to ≡ true
      → count_where (is_at id from) w.charge_requests ≡ 1
      → transition id from to patch w ≡ (returned tt, move_rows id from to patch w)
  unfolding transition
  transition_made legal one = rw (legal, one)

  pub transition-illegal :
      is_legal from to ≡ false → transition id from to patch w ≡ (thrown illegal, w)
  unfolding transition
  transition-illegal e = rw e

  -- With no row at the state that is left, the call throws and changes nothing.
  pub transition_stale :
      count_where (is_at id from) w.charge_requests ≡ 0
      → transition id from to patch w ≡ (thrown illegal, w)
  unfolding transition
  transition_stale e = elim (Bool-cases (is_legal from to)) [
    | inl legal ↦ rw (
      legal,
      e,
      update_where_of_zero (is_at id from) (moved w.clock to patch) w.charge_requests e,
    )
    | inr illegal_edge ↦ rw illegal_edge
  ]

  -- Where charge keys are unique and a row has the key, a transition is made exactly when its
  -- edge is legal and the row stands at its beginning; else it throws an invalid state transition
  -- and changes nothing.
  pub transition_lem :
      (row : ChargeRequest)
      → HasUniqueIds w.charge_requests
      → find_charge id w ≡ some row
      → transition id from to patch w ≡ (
          if is_legal from to && eq_status row.status from
          then (returned tt, move_rows id from to patch w)
          else (thrown illegal, w))
  transition_lem row unique e = elim (Bool-cases (is_legal from to)) [
    | inr bad ↦ rw bad (transition-illegal bad)
    | inl legal ↦ elim (Bool-cases (eq_status row.status from)) [
      | inl at ↦ rw (legal, at) (transition_made legal (count_found at))
      | inr elsewhere ↦ rw (legal, elsewhere) (transition_stale (count_found elsewhere))
    ]
  ]
    where
      count_found :
          {b : Bool}
          → eq_status row.status from ≡ b
          → count_where (is_at id from) w.charge_requests ≡ (if b then 1 else 0)
      count_found at = ground (
        arith,
        count-is_at id from w.charge_requests row unique e,
        found_passes (is_charge id) w.charge_requests row e,
      )

legal-ne : (from to : ChargeRequestStatus) → is_legal from to ≡ true → eq_status to from ≡ false
legal-ne from to legal = elim (Bool-cases (eq_status to from)) [
  | inl same ↦
      let loop : is_legal from from ≡ true =
        subst (λ s. is_legal from s ≡ true) ((eq_status_iff to from).0 same) legal in
      absurd (ground (arith, not_legal_self from))
  | inr other ↦ other
]

-- A legal update takes its rows away from the state that it guards.
move_rows-leaves :
    (id : String) (from to : ChargeRequestStatus) (patch : ChargePatch) (w : World)
    → is_legal from to ≡ true
    → count_where (is_at id from) (move_rows id from to patch w).charge_requests ≡ 0
move_rows-leaves id from to patch w legal =
    count_where-update_self (is_at id from) (is_at id from) (moved w.clock to patch)
      (λ row h. ground (arith, legal-ne from to legal)) w.charge_requests

transition-world :
    (id : String) (from to : ChargeRequestStatus) (patch : ChargePatch) (w : World)
    → is_legal from to ≡ true
    → (transition id from to patch w).1 ≡ move_rows id from to patch w
unfolding transition
transition-world id from to patch w legal = ground arith

-- After a transition that returned, the same transition of the same key is refused as an invalid
-- state transition and changes nothing, whatever either caller writes with it.
pub transition_once :
    (id : String) (from to : ChargeRequestStatus) (mine theirs : ChargePatch) (w : World)
    → (transition id from to mine w).0 ≡ returned tt
    → let w' = (transition id from to mine w).1 in
      transition id from to theirs w' ≡ (thrown illegal, w')
transition_once id from to mine theirs w won = elim (Bool-cases (is_legal from to)) [
  | inl legal ↦
      rw (transition-world id from to mine w legal)
        (transition_stale id from to theirs _ (move_rows-leaves id from to mine w legal))
  | inr bad ↦ transition-illegal id from to theirs _ bad
]
