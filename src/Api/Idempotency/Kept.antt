-- ===== src/Api/Idempotency/Kept.antt =====
-- What later requests leave of a stored answer.
use stellar_journey.Base.{
  ℕ, ◌≡◌, ◌∙◌, inl, inr, sym, refl, String, true, false, ◌&&◌, Option, none, some, List, [], ◌∷◌,
  arith, str_eq, eq_iff, eq_refl, find_where, find_where-update_ne, Option-cases, Bool-cases,
}
use stellar_journey.Base.Effect.{Run, Result, returned, thrown, settle}
use stellar_journey.Store.{Fault}
use stellar_journey.Api.Idempotency.{
  IdempotencyKey, IdempotentHandlerResult, is_key, completed, replay, replay_parts, attempt,
  run_idempotent,
}
use stellar_journey.Api.Idempotency.Laws.{
  stored, run_new, run_failed, IsAnswered, run_new-IsAnswered, run_idempotent_answered,
}

-- A request: its merchant, its key, its hash and its handler.
pub record Request (D : Type 0) : Type 0 where
  pub merchant_id : String
  pub key : String
  pub request_hash : String
  pub handler : Run D Fault IdempotentHandlerResult

module _ {D : Type 0} where
  abbrev pub serve : Request D → D × List IdempotencyKey → D × List IdempotencyKey
  serve r w = (run_idempotent r.merchant_id r.key r.request_hash r.handler w).1

  -- The store after a sequence of requests.
  unfoldable pub serve_all : List (Request D) → D × List IdempotencyKey → D × List IdempotencyKey
  serve_all [] w = w
  serve_all (r ∷ requests) w = serve_all requests (serve r w)

  replay_parts-world :
      (status : Option ℕ) (body : Option String) (w : D × List IdempotencyKey)
      → (settle w (replay_parts status body w)).1 ≡ w
  replay_parts-world (some status) (some body) w = refl
  replay_parts-world (some status) none w = refl
  replay_parts-world none body w = refl

  replay-world :
      (hash : String) (existing : IdempotencyKey) (w : D × List IdempotencyKey)
      → (settle w (replay hash existing w)).1 ≡ w
  replay-world hash existing w = elim (Bool-cases (str_eq existing.request_hash hash)) [
    | inl same ↦ rw same (replay_parts-world existing.response_status existing.response_body w)
    | inr other ↦ rw other
  ]

  module _ (merchant_id key request_hash : String) (handler : Run D Fault IdempotentHandlerResult)
      (d : D) (rows : List IdempotencyKey) where
    -- A request whose key is there writes nothing.
    served_existing :
        (existing : IdempotencyKey)
        → find_where (is_key merchant_id key) rows ≡ some existing
        → (run_idempotent merchant_id key request_hash handler (d, rows)).1 ≡ (d, rows)
    unfolding run_idempotent attempt
    served_existing existing found = rw found (replay-world request_hash existing (d, rows))

    module _ (m k : String) (row : IdempotencyKey)
        (found : find_where (is_key m k) rows ≡ some row) where
      differs : find_where (is_key merchant_id key) rows ≡ none → merchant_id ≡ m → key ≡ k → ⊥
      differs absent same_merchant same_key = cc (sym absent ∙ same ∙ found)
        where
          same : find_where (is_key merchant_id key) rows ≡ find_where (is_key m k) rows
          same = rw (same_merchant, same_key)

      other_key :
          find_where (is_key merchant_id key) rows ≡ none
          → (r : IdempotencyKey) → is_key m k r ≡ true
          → is_key merchant_id key r ≡ false
      other_key absent r is_mine = ground (
        arith,
        differs absent,
        eq_iff r.merchant_id m,
        eq_iff r.key k,
        eq_iff r.merchant_id merchant_id,
        eq_iff r.key key,
      )

      -- A new key leaves the rows of the other keys,
      kept_new :
          find_where (is_key merchant_id key) rows ≡ none
          → (result : IdempotentHandlerResult)
          → find_where (is_key m k) (stored merchant_id key request_hash handler d rows result)
            ≡ some row
      unfolding find_where
      kept_new absent result = rw headless (
          find_where-update_ne (is_key merchant_id key) (is_key m k) (completed result) (λ r. refl)
            (other_key absent) rows
          ∙ found)
        where
          headless : (str_eq merchant_id m && str_eq key k) ≡ false
          headless = ground (arith, differs absent, eq_iff merchant_id m, eq_iff key k)

      -- so every request does.
      kept_one :
          find_where
            (is_key m k)
            (run_idempotent merchant_id key request_hash handler (d, rows)).1.1
          ≡ some row
      kept_one = elim (Option-cases (find_where (is_key merchant_id key) rows)) [
        | inr (existing, here) ↦ rw (served_existing existing here) found
        | inl absent ↦ of_handled (handler d) refl absent
      ]
        where
          of_handled :
              (end : Result Fault IdempotentHandlerResult × D)
              → handler d ≡ end
              → find_where (is_key merchant_id key) rows ≡ none
              → find_where
                  (is_key m k)
                  (run_idempotent merchant_id key request_hash handler (d, rows)).1.1
                ≡ some row
          of_handled (returned result, d') handled absent =
              rw (run_new merchant_id key request_hash handler d rows result d' absent handled)
                (kept_new absent result)
          of_handled (thrown e, d') handled absent =
              rw (run_failed merchant_id key request_hash handler d rows e d' absent handled) found

  -- Whatever sequence of requests follows, under whatever keys and with whatever handlers, a key
  -- that has been answered keeps its hash, its status and its body.
  pub serve_all-IsAnswered :
      (merchant_id key request_hash : String) (status : ℕ) (body : String)
      (requests : List (Request D)) (d : D) (rows : List IdempotencyKey)
      → IsAnswered merchant_id key request_hash status body rows
      → IsAnswered merchant_id key request_hash status body (serve_all requests (d, rows)).1
  unfolding serve_all
  serve_all-IsAnswered m k h status body [] d rows a = a
  serve_all-IsAnswered m k h status body (r ∷ requests) d rows a =
      serve_all-IsAnswered m k h status body requests (serve r (d, rows)).0 (serve r (d, rows)).1
        (record {
          row = a.row;
          found = kept_one r.merchant_id r.key r.request_hash r.handler d rows m k a.row a.found;
          hash = a.hash;
          has_status = a.has_status;
          has_body = a.has_body;
        })

  -- A request under a new key whose handler returns is handled once: after whatever sequence of
  -- other requests, the same request again is answered with the first status and body, marked as
  -- replayed, calls no handler and writes nothing.
  pub run_idempotent_once :
      (merchant_id key request_hash : String) (handler again : Run D Fault IdempotentHandlerResult)
      (d d' : D) (rows : List IdempotencyKey) (result : IdempotentHandlerResult)
      (requests : List (Request D))
      → find_where (is_key merchant_id key) rows ≡ none
      → handler d ≡ (returned result, d')
      → let first = run_idempotent merchant_id key request_hash handler (d, rows) in
        let later = serve_all requests first.1 in
        (first.0
          ≡ returned (record { replayed = false; status = result.status; body = result.body }))
        × (first.1.0 ≡ d')
        × (run_idempotent merchant_id key request_hash again later ≡ (
          returned (record { replayed = true; status = result.status; body = result.body }),
          later,
        ))
  run_idempotent_once m k h handler again d d' rows result requests absent handled =
      rw (run_new m k h handler d rows result d' absent handled) (
        refl,
        refl,
        run_idempotent_answered m k h again _ _ h result.status result.body (
              serve_all-IsAnswered m k h result.status result.body requests d' _
                (run_new-IsAnswered m k h handler d rows result))
            ∙ rw (eq_refl h),
      )
