-- ===== src/Relayer/Retry.antt =====
-- apps/relayer/src/retry-schedule.ts and webhook-retry-schedule.ts: when a failed attempt is made
-- again. Times are milliseconds since the epoch.
pub mod Laws
use stellar_journey.Base.{
  ℕ, ◌+◌, ◌-◌, ◌*◌, Option, none, some, List, [], ◌∷◌, map, length, get_elem?, if◌then◌else◌, ◌==◌,
}

abbrev pub retry_delays_ms : List ℕ
retry_delays_ms = map (λ hours. hours * 60 * 60 * 1000) (6 ∷ 24 ∷ 72 ∷ [])

abbrev pub max_attempts : ℕ
max_attempts = length retry_delays_ms + 1

abbrev pub webhook_retry_delays_ms : List ℕ
webhook_retry_delays_ms = map (λ minutes. minutes * 60 * 1000) (1 ∷ 5 ∷ 30 ∷ 120 ∷ 360 ∷ [])

abbrev pub max_webhook_attempts : ℕ
max_webhook_attempts = length webhook_retry_delays_ms + 1

-- `delays[attemptCount - 1]`: index -1 of an array is `undefined`.
abbrev pub delay_of : List ℕ → ℕ → Option ℕ
delay_of delays attempt_count =
    if attempt_count == 0 then none else get_elem? delays (attempt_count - 1)

abbrev pub after : Option ℕ → ℕ → Option ℕ
after none from = none
after (some delay) from = some (from + delay)

unfoldable pub next_retry_at : ℕ → ℕ → Option ℕ
next_retry_at attempt_count from = after (delay_of retry_delays_ms attempt_count) from

unfoldable pub next_webhook_retry_at : ℕ → ℕ → Option ℕ
next_webhook_retry_at attempt_count from =
    after (delay_of webhook_retry_delays_ms attempt_count) from
