-- ===== src/Api/ChargeStatus.antt =====
-- apps/api/src/state-machine.ts: the states of a charge request and the edges between them.
pub mod Graph
pub mod Transition
use stellar_journey.Base.{Bool, true, false, ◌||◌, List, [], ◌∷◌}

pub data ChargeRequestStatus : Type 0 where
  scheduled processing simulated submitted succeeded retryable_failed permanently_failed :
      ChargeRequestStatus

abbrev pub eq_status : ChargeRequestStatus → ChargeRequestStatus → Bool
eq_status scheduled scheduled = true
eq_status processing processing = true
eq_status simulated simulated = true
eq_status submitted submitted = true
eq_status succeeded succeeded = true
eq_status retryable_failed retryable_failed = true
eq_status permanently_failed permanently_failed = true
eq_status _ _ = false

abbrev pub legal_transitions : ChargeRequestStatus → List ChargeRequestStatus
legal_transitions scheduled = processing ∷ []
legal_transitions processing = simulated ∷ retryable_failed ∷ permanently_failed ∷ []
legal_transitions simulated = submitted ∷ []
legal_transitions submitted = succeeded ∷ retryable_failed ∷ permanently_failed ∷ []
legal_transitions succeeded = []
legal_transitions retryable_failed = processing ∷ []
legal_transitions permanently_failed = []

-- `allowed.includes(to)`.
abbrev pub includes : List ChargeRequestStatus → ChargeRequestStatus → Bool
includes [] s = false
includes (t ∷ ts) s = eq_status t s || includes ts s

-- The test of `assertLegalChargeRequestTransition`.
abbrev pub is_legal : ChargeRequestStatus → ChargeRequestStatus → Bool
is_legal from to = includes (legal_transitions from) to
