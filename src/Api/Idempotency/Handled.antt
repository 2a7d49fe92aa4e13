-- ===== src/Api/Idempotency/Handled.antt =====
-- An answer that is no replay is the handler's.
use stellar_journey.Base.{
  ℕ, ◌≡◌, String, true, false, Option, none, some, List, ◌∷◌, str_eq, update_where, find_where, inl,
  inr, Bool-cases,
}
use stellar_journey.Base.Effect.{Run, Result, returned, thrown, and_then, modify, pure, ◌>>◌}
use stellar_journey.Base.Effect.Inversion.{settle_inv}
use stellar_journey.Store.{Fault}
use stellar_journey.Api.Idempotency.{
  IdempotencyKey, IdempotentHandlerResult, IdempotentOutcome, Keyed, is_key, new_key, completed,
  lift_result, replay_parts, replay, attempt, run_idempotent,
}

module _ {D : Type 0} where
  replay_parts-replayed :
      (status : Option ℕ) (body : Option String) (w w' : D × List IdempotencyKey)
      (outcome : IdempotentOutcome)
      → replay_parts status body w ≡ (returned outcome, w')
      → outcome.replayed ≡ true
  replay_parts-replayed (some status) (some body) w w' outcome h = cc h
  replay_parts-replayed (some status) none w w' outcome h = absurd cc
  replay_parts-replayed none body w w' outcome h = absurd cc

  replay-replayed :
      (hash : String) (existing : IdempotencyKey) (w w' : D × List IdempotencyKey)
      (outcome : IdempotentOutcome)
      → replay hash existing w ≡ (returned outcome, w')
      → outcome.replayed ≡ true
  replay-replayed hash existing w w' outcome h =
      elim (Bool-cases (str_eq existing.request_hash hash)) [
        | inl same ↦
            replay_parts-replayed existing.response_status existing.response_body w w' outcome
              (rw same at h)
        | inr other ↦ absurd (cc (rw other at h))
      ]

  module _ (merchant_id key hash : String) (handler : Run D Fault IdempotentHandlerResult) where
    abbrev finish : IdempotentHandlerResult → Keyed D IdempotentOutcome
    finish result = do
      modify (λ w. (w.0, update_where (is_key merchant_id key) (completed result) w.1))
      pure (record { replayed = false; status = result.status; body = result.body })

    finish_inv :
        (end : Result Fault IdempotentHandlerResult × D) (d' : D) (rows rows' : List IdempotencyKey)
        (outcome : IdempotentOutcome)
        → and_then finish (lift_result rows end) ≡ (returned outcome, (d', rows'))
        → (result : IdempotentHandlerResult) × (end ≡ (returned result, d'))
          × (outcome.status ≡ result.status)
          × (outcome.body ≡ result.body)
    finish_inv (returned result, d) d' rows rows' outcome h = (result, cc h, cc h, cc h)
    finish_inv (thrown e, d) d' rows rows' outcome h = absurd cc

    attempt_inv :
        (existing : Option IdempotencyKey) (d d' : D) (rows rows' : List IdempotencyKey)
        (outcome : IdempotentOutcome)
        → attempt merchant_id key hash handler existing (d, rows) ≡ (returned outcome, (d', rows'))
        → outcome.replayed ≡ false
        → (result : IdempotentHandlerResult) × (handler d ≡ (returned result, d'))
          × (outcome.status ≡ result.status)
          × (outcome.body ≡ result.body)
    unfolding attempt
    attempt_inv (some existing) d d' rows rows' outcome h first =
        absurd (cc (replay-replayed hash existing (d, rows) (d', rows') outcome h))
    attempt_inv none d d' rows rows' outcome h first =
        finish_inv (handler d) d' (new_key merchant_id key hash ∷ rows) rows' outcome h

    -- An answer that is no replay is that of the handler, whose writes are kept.
    pub run_idempotent_handled :
        (d d' : D) (rows rows' : List IdempotencyKey) (outcome : IdempotentOutcome)
        → run_idempotent merchant_id key hash handler (d, rows) ≡ (returned outcome, (d', rows'))
        → outcome.replayed ≡ false
        → (result : IdempotentHandlerResult) × (handler d ≡ (returned result, d'))
          × (outcome.status ≡ result.status)
          × (outcome.body ≡ result.body)
    unfolding run_idempotent
    run_idempotent_handled d d' rows rows' outcome h first =
        attempt_inv (find_where (is_key merchant_id key) rows) d d' rows rows' outcome
          (settle_inv (d, rows) _ h) first
