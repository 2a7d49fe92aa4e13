-- ===== src/Api/Idempotency/Laws.antt =====
-- That a request under a key is handled once, and what a repetition is answered.
use stellar_journey.Base.{
  ℕ, ◌≡◌, ◌≢◌, ◌∙◌, inl, inr, sym, refl, String, true, false, none, some, List, ◌∷◌, arith, str_eq,
  eq_iff, eq_refl, find_where, update_where, if◌then◌else◌, Bool-cases,
}
use stellar_journey.Base.Effect.{Run, returned, thrown}
use stellar_journey.Store.{Fault}
use stellar_journey.Api.Idempotency.{
  IdempotencyKey, IdempotentHandlerResult, IdempotentOutcome, is_key, new_key, completed, reused,
  attempt, run_idempotent,
}

module _ {D : Type 0} (merchant_id key request_hash : String)
    (handler : Run D Fault IdempotentHandlerResult) (d : D) (rows : List IdempotencyKey) where
  is_key-new_key : is_key merchant_id key (new_key merchant_id key request_hash) ≡ true
  is_key-new_key = ground (arith, eq_refl merchant_id, eq_refl key)

  abbrev pub answer : IdempotentHandlerResult → IdempotentOutcome
  answer result = record { replayed = false; status = result.status; body = result.body }

  abbrev pub stored : IdempotentHandlerResult → List IdempotencyKey
  stored result =
      completed result (new_key merchant_id key request_hash)
      ∷ update_where (is_key merchant_id key) (completed result) rows

  -- A request under a new key is answered by its handler, whose answer is stored with it,
  pub run_new :
      (result : IdempotentHandlerResult) (d' : D)
      → find_where (is_key merchant_id key) rows ≡ none
      → handler d ≡ (returned result, d')
      → run_idempotent merchant_id key request_hash handler (d, rows)
        ≡ (returned (answer result), (d', stored result))
  unfolding run_idempotent attempt update_where
  run_new result d' absent handled = rw (absent, handled, is_key-new_key)

  -- A request under a new key whose handler throws is answered by that throw and leaves the store
  -- as it was, without the key and without what the handler wrote.
  pub run_failed :
      (e : Fault) (d' : D)
      → find_where (is_key merchant_id key) rows ≡ none
      → handler d ≡ (thrown e, d')
      → run_idempotent merchant_id key request_hash handler (d, rows) ≡ (thrown e, (d, rows))
  unfolding run_idempotent attempt
  run_failed e d' absent handled = rw (absent, handled)

  -- A key that is there is not handled again.
  pub run_reused :
      (row : IdempotencyKey)
      → find_where (is_key merchant_id key) rows ≡ some row
      → row.request_hash ≢ request_hash
      → run_idempotent merchant_id key request_hash handler (d, rows) ≡ (thrown reused, (d, rows))
  unfolding run_idempotent attempt
  run_reused row found other = rw (found, differs)
    where
      differs : str_eq row.request_hash request_hash ≡ false
      differs = ground (arith, eq_iff row.request_hash request_hash)

  pub run_replayed :
      (row : IdempotencyKey) (status : ℕ) (body : String)
      → find_where (is_key merchant_id key) rows ≡ some row
      → row.request_hash ≡ request_hash
      → row.response_status ≡ some status
      → row.response_body ≡ some body
      → run_idempotent merchant_id key request_hash handler (d, rows)
        ≡ (returned (record { replayed = true; status = status; body = body }), (d, rows))
  unfolding run_idempotent attempt
  run_replayed row status body found same has_status has_body =
      rw (found, (eq_iff row.request_hash request_hash).1 same, has_status, has_body)

-- A key that has been answered.
pub record IsAnswered (merchant_id key request_hash : String) (status : ℕ) (body : String)
    (rows : List IdempotencyKey) : Type 0 where
  pub row : IdempotencyKey
  pub found : find_where (is_key merchant_id key) rows ≡ some row
  pub hash : row.request_hash ≡ request_hash
  pub has_status : row.response_status ≡ some status
  pub has_body : row.response_body ≡ some body

module _ {D : Type 0} (merchant_id key request_hash : String) where
  pub run_new-IsAnswered :
      (handler : Run D Fault IdempotentHandlerResult) (d : D) (rows : List IdempotencyKey)
      (result : IdempotentHandlerResult)
      → IsAnswered merchant_id key request_hash result.status result.body
          (stored merchant_id key request_hash handler d rows result)
  unfolding find_where
  run_new-IsAnswered handler d rows result = record {
    row = completed result (new_key merchant_id key request_hash);
    found = rw (eq_refl merchant_id, eq_refl key);
    hash = refl;
    has_status = refl;
    has_body = refl;
  }

  -- Once a key has been answered, a repetition with the same body is given the stored answer, and one
  -- with another body is refused; neither calls its handler or writes anything.
  pub run_idempotent_answered :
      (handler : Run D Fault IdempotentHandlerResult) (d : D) (rows : List IdempotencyKey)
      (again : String) (status : ℕ) (body : String)
      → IsAnswered merchant_id key request_hash status body rows
      → run_idempotent merchant_id key again handler (d, rows) ≡ (
          if str_eq request_hash again
          then (returned (record { replayed = true; status = status; body = body }), (d, rows))
          else (thrown reused, (d, rows)))
  run_idempotent_answered handler d rows again status body a =
      elim (Bool-cases (str_eq request_hash again)) [
        | inl same ↦ rw same (
            run_replayed merchant_id key again handler d rows a.row status body a.found
              (a.hash ∙ (eq_iff request_hash again).0 same) a.has_status a.has_body)
        | inr other ↦ rw other (
            run_reused merchant_id key again handler d rows a.row a.found
              (λ e. ground (arith, eq_iff request_hash again, sym a.hash ∙ e)))
      ]
