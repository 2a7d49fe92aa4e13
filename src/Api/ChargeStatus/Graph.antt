-- ===== src/Api/ChargeStatus/Graph.antt =====
-- The graph of charge states: terminal states, self-loops, and how a charge can come to succeed.
use stellar_journey.Base.{◌≡◌, ◌↔◌, refl, true, false, arith}
use stellar_journey.Api.ChargeStatus.{
  ChargeRequestStatus, scheduled, processing, simulated, submitted, succeeded, retryable_failed,
  permanently_failed, eq_status, is_legal,
}

pub eq_status_iff : (a b : ChargeRequestStatus) → (eq_status a b ≡ true) ↔ (a ≡ b)
eq_status_iff scheduled b = ground arith
eq_status_iff processing b = ground arith
eq_status_iff simulated b = ground arith
eq_status_iff submitted b = ground arith
eq_status_iff succeeded b = ground arith
eq_status_iff retryable_failed b = ground arith
eq_status_iff permanently_failed b = ground arith

-- No legal edge is a loop, so a transition that has been made cannot be made again.
pub not_legal_self : (a : ChargeRequestStatus) → is_legal a a ≡ false
not_legal_self scheduled = refl
not_legal_self _ = refl
