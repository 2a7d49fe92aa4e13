-- ===== src/Api/ChargeStatus/Transition.antt =====
-- apps/api/src/state-machine.ts: `transitionChargeRequest`, the guarded update of one row.
pub mod Laws
use stellar_journey.Base.{
  ℕ, String, Bool, ◌&&◌, Option, none, List, count_where, update_where, if◌then◌else◌, ◌==◌, not,
}
use stellar_journey.Base.Effect.{throw_if, modify, ◌>>=◌, ◌>>◌, gets, Result, returned, thrown}
use stellar_journey.Store.{ChargeRequest, World, Fault, api_error, Job, is_charge, or_keep, or_set}
use stellar_journey.Api.ChargeStatus.{ChargeRequestStatus, eq_status, is_legal}

-- The `data` argument.
pub record ChargePatch : Type 0 where
  pub attempt_count : Option ℕ
  pub failure_code : Option String
  pub next_attempt_at : Option (Option ℕ)
  pub transaction_hash : Option String

abbrev pub no_patch : ChargePatch
no_patch = record {
  attempt_count = none;
  failure_code = none;
  next_attempt_at = none;
  transaction_hash = none;
}

-- `{ status: to, ...data }`, and the time that the database client puts on each update.
abbrev pub moved : ℕ → ChargeRequestStatus → ChargePatch → ChargeRequest → ChargeRequest
moved clock to patch row = record row {
  status = to;
  attempt_count = or_keep patch.attempt_count row.attempt_count;
  failure_code = or_set patch.failure_code row.failure_code;
  next_attempt_at = or_keep patch.next_attempt_at row.next_attempt_at;
  transaction_hash = or_set patch.transaction_hash row.transaction_hash;
  updated_at = clock;
}

-- `where: { id, status: from }`.
abbrev pub is_at : String → ChargeRequestStatus → ChargeRequest → Bool
is_at id from row = is_charge id row && eq_status row.status from

abbrev pub illegal : Fault
illegal = api_error 409 "InvalidStateTransition"

abbrev pub move_rows :
    String → ChargeRequestStatus → ChargeRequestStatus → ChargePatch → World → World
move_rows id from to patch w = record w {
  charge_requests = update_where (is_at id from) (moved w.clock to patch) w.charge_requests;
}

-- `updateMany`, which returns how many rows it has updated.
abbrev update_many : String → ChargeRequestStatus → ChargeRequestStatus → ChargePatch → Job ℕ
update_many id from to patch w =
    (returned (count_where (is_at id from) w.charge_requests), move_rows id from to patch w)

unfoldable pub assert_legal : ChargeRequestStatus → ChargeRequestStatus → Job (Unit {0})
assert_legal from to = throw_if (not (is_legal from to)) illegal

unfoldable pub transition :
    String → ChargeRequestStatus → ChargeRequestStatus → ChargePatch → Job (Unit {0})
unfolding assert_legal
transition id from to patch = do
  assert_legal from to
  count ← update_many id from to patch
  throw_if (not (count == 1)) illegal
