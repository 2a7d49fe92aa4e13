-- ===== src/Relayer/Retry/Laws.antt =====
-- The bounds of the two schedules.
use Prim.Native.Nat.{zero, suc}
use stellar_journey.Base.{ℕ, ◌+◌, ◌≤◌, ◌<◌, ◌≡◌, ◌≢◌, ◌↔◌, none, some, arith}
use stellar_journey.Relayer.Retry.{
  max_attempts, max_webhook_attempts, next_retry_at, next_webhook_retry_at,
}

-- A time for another attempt at a charge is given after each of the first three attempts, and
-- after no other count.
pub next_retry_at-some_iff :
    (n from : ℕ) → (next_retry_at n from ≢ none) ↔ ((1 ≤ n) × (n < max_attempts))
unfolding next_retry_at
next_retry_at-some_iff zero from = ground arith
next_retry_at-some_iff (suc zero) from = ground arith
next_retry_at-some_iff (suc (suc zero)) from = ground arith
next_retry_at-some_iff (suc (suc (suc zero))) from = ground arith
next_retry_at-some_iff (suc (suc (suc (suc n)))) from = ground arith

-- The time for another attempt at a charge, where one is given, is six hours to three days after
-- the failure.
pub next_retry_at_bounds :
    (n from at : ℕ)
    → next_retry_at n from ≡ some at
    → (from + 21600000 ≤ at) × (at ≤ from + 259200000)
unfolding next_retry_at
next_retry_at_bounds zero from at e = ground arith
next_retry_at_bounds (suc zero) from at e = ground arith
next_retry_at_bounds (suc (suc zero)) from at e = ground arith
next_retry_at_bounds (suc (suc (suc zero))) from at e = ground arith
next_retry_at_bounds (suc (suc (suc (suc n)))) from at e = ground arith

-- A time for another attempt at a webhook is given after each of the first five attempts, and
-- after no other count.
pub next_webhook_retry_at-some_iff :
    (n from : ℕ) → (next_webhook_retry_at n from ≢ none) ↔ ((1 ≤ n) × (n < max_webhook_attempts))
unfolding next_webhook_retry_at
next_webhook_retry_at-some_iff zero from = ground arith
next_webhook_retry_at-some_iff (suc zero) from = ground arith
next_webhook_retry_at-some_iff (suc (suc zero)) from = ground arith
next_webhook_retry_at-some_iff (suc (suc (suc zero))) from = ground arith
next_webhook_retry_at-some_iff (suc (suc (suc (suc zero)))) from = ground arith
next_webhook_retry_at-some_iff (suc (suc (suc (suc (suc zero))))) from = ground arith
next_webhook_retry_at-some_iff (suc (suc (suc (suc (suc (suc n)))))) from = ground arith
