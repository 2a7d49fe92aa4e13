-- ===== src/Api/Idempotency.antt =====
-- apps/api/src/idempotency/middleware.ts: `runIdempotent`, over any store `D` that its handler reads
-- and writes. A request's hash and the row ids, which come from node:crypto, are arguments or left
-- out; a body is its JSON text.
pub mod Laws
pub mod Kept
pub mod Handled
use stellar_journey.Base.{
  ℕ, String, Bool, true, false, ◌&&◌, Option, none, some, List, [], ◌∷◌, str_eq, find_where,
  update_where, if◌then◌else◌, not,
}
use stellar_journey.Base.Effect.{
  Run, pure, throw, gets, ◌>>=◌, ◌>>◌, modify, transaction, Result, returned, thrown,
}
use stellar_journey.Store.{Fault, api_error}

pub record IdempotencyKey : Type 0 where
  pub merchant_id : String
  pub key : String
  pub request_hash : String
  pub response_status : Option ℕ
  pub response_body : Option String

pub record IdempotentHandlerResult : Type 0 where
  pub status : ℕ
  pub body : String

pub record IdempotentOutcome : Type 0 where
  pub replayed : Bool
  pub status : ℕ
  pub body : String

-- The unique index on merchant and key.
abbrev pub is_key : String → String → IdempotencyKey → Bool
is_key merchant_id key row = str_eq row.merchant_id merchant_id && str_eq row.key key

abbrev pub new_key : String → String → String → IdempotencyKey
new_key merchant_id key request_hash = record {
  merchant_id = merchant_id;
  key = key;
  request_hash = request_hash;
  response_status = none;
  response_body = none;
}

abbrev pub completed : IdempotentHandlerResult → IdempotencyKey → IdempotencyKey
completed result row = record row {
  response_status = some result.status;
  response_body = some result.body;
}

abbrev pub reused : Fault
reused = api_error 409 "IDEMPOTENCY_KEY_REUSED"

abbrev pub in_process : Fault
in_process = api_error 409 "IDEMPOTENCY_KEY_PROCESSING"

-- Code over the handler's store and the table of keys.
abbrev pub Keyed : Type 0 → Type 0 → Type 0
Keyed D A = Run (D × List IdempotencyKey) Fault A

module _ {D : Type 0} where
  -- The handler, which does not reach the table of keys.
  abbrev pub lift_result :
      {A : Type 0}
      → List IdempotencyKey
      → Result Fault A × D
      → Result Fault A × (D × List IdempotencyKey)
  lift_result rows (r, d) = (r, (d, rows))

  abbrev pub on_store : {A : Type 0} → Run D Fault A → Keyed D A
  on_store handler (d, rows) = lift_result rows (handler d)

  -- The answer to a request whose key is there.
  abbrev pub replay_parts : Option ℕ → Option String → Keyed D IdempotentOutcome
  replay_parts (some status) (some body) =
      pure (record { replayed = true; status = status; body = body })
  replay_parts _ _ = throw in_process

  abbrev pub replay : String → IdempotencyKey → Keyed D IdempotentOutcome
  replay request_hash existing =
      if str_eq existing.request_hash request_hash
      then replay_parts existing.response_status existing.response_body
      else throw reused

  unfoldable pub attempt :
      String
      → String
      → String
      → Run D Fault IdempotentHandlerResult
      → Option IdempotencyKey
      → Keyed D IdempotentOutcome
  attempt merchant_id key request_hash handler (some existing) = replay request_hash existing
  attempt merchant_id key request_hash handler none = do
    modify (λ w. (w.0, new_key merchant_id key request_hash ∷ w.1))
    result ← on_store handler
    modify (λ w. (w.0, update_where (is_key merchant_id key) (completed result) w.1))
    pure (record { replayed = false; status = result.status; body = result.body })

  unfoldable pub run_idempotent :
      String → String → String → Run D Fault IdempotentHandlerResult → Keyed D IdempotentOutcome
  run_idempotent merchant_id key request_hash handler = transaction (do
    existing ← gets (λ w. find_where (is_key merchant_id key) w.1)
    attempt merchant_id key request_hash handler existing)
