-- ===== src/Web/Revoke.antt =====
-- apps/web/src/lib/revoke-flow.ts: the reducer of the dialog that cancels a mandate.
use stellar_journey.Base.{
  ℕ, ◌≡◌, ◌≢◌, ◌↔◌, ◌⊎◌, Option, none, some, arith, Bool, true, false, ltb, if◌then◌else◌,
}
use stellar_journey.Web.Display.{DisplayError}

pub data RevokeFlowPhase : Type 0 where
  idle confirming revoking revoke_failed allowance_prompt checking_allowance zeroing_allowance
        zero_allowance_failed complete :
      RevokeFlowPhase

pub record RevokeFlowState : Type 0 where
  pub phase : RevokeFlowPhase
  pub error : Option DisplayError
  pub allowance_was_already_zero : Option Bool

pub data RevokeFlowAction : Type 0 where
  open_confirm close confirm_revoke revoke_success : RevokeFlowAction
  revoke_error : DisplayError → RevokeFlowAction
  check_allowance_start : RevokeFlowAction
  check_allowance_result : ℕ → RevokeFlowAction
  confirm_zero_allowance zero_allowance_success : RevokeFlowAction
  zero_allowance_error : DisplayError → RevokeFlowAction
  skip_allowance : RevokeFlowAction

abbrev pub at_phase : RevokeFlowPhase → RevokeFlowState
at_phase phase = record { phase = phase; error = none; allowance_was_already_zero = none }

abbrev pub initial_revoke_flow_state : RevokeFlowState
initial_revoke_flow_state = at_phase idle

-- Where `CLOSE` is legal.
abbrev pub may_close : RevokeFlowPhase → Bool
may_close confirming = true
may_close complete = true
may_close revoke_failed = true
may_close zero_allowance_failed = true
may_close _ = false

-- `none` where the reducer throws.
unfoldable pub revoke_flow_reducer : RevokeFlowState → RevokeFlowAction → Option RevokeFlowState
revoke_flow_reducer s open_confirm = some (at_phase confirming)
revoke_flow_reducer s close = if may_close s.phase then some (at_phase idle) else none
revoke_flow_reducer s confirm_revoke = some (at_phase revoking)
revoke_flow_reducer s revoke_success = some (at_phase checking_allowance)
revoke_flow_reducer s (revoke_error e) = some (record (at_phase revoke_failed) { error = some e })
revoke_flow_reducer s check_allowance_start = some (at_phase checking_allowance)
revoke_flow_reducer s (check_allowance_result allowance) =
    if ltb 0 allowance
    then some (at_phase allowance_prompt)
    else some (record (at_phase complete) { allowance_was_already_zero = some true })
revoke_flow_reducer s confirm_zero_allowance = some (at_phase zeroing_allowance)
revoke_flow_reducer s zero_allowance_success = some (at_phase complete)
revoke_flow_reducer s (zero_allowance_error e) =
    some (record (at_phase zero_allowance_failed) { error = some e })
revoke_flow_reducer s skip_allowance = some (at_phase complete)

-- A state that the dialog can show: an error in the two failed phases and in no other, and the note
-- that nothing was left to zero at the end only.
abbrev pub IsShown : RevokeFlowState → Type 0
IsShown s =
    ((s.error ≢ none) ↔ ((s.phase ≡ revoke_failed) ⊎ (s.phase ≡ zero_allowance_failed)))
    × (s.allowance_was_already_zero ≢ none → s.phase ≡ complete)

-- Whatever the state and the action, a state that the reducer of the revoke dialog answers shows
-- an error exactly in the two failed phases and notes a zero allowance at the end only; the
-- reducer throws exactly for `close` in a phase that may not be closed.
pub revoke_flow_reducer-IsShown :
    (s : RevokeFlowState) (a : RevokeFlowAction)
    → ((t : RevokeFlowState) → revoke_flow_reducer s a ≡ some t → IsShown t)
      × ((revoke_flow_reducer s a ≡ none) ↔ ((a ≡ close) × (may_close s.phase ≡ false)))
unfolding revoke_flow_reducer
revoke_flow_reducer-IsShown s open_confirm = ground arith
revoke_flow_reducer-IsShown s close = ground arith
revoke_flow_reducer-IsShown s confirm_revoke = ground arith
revoke_flow_reducer-IsShown s revoke_success = ground arith
revoke_flow_reducer-IsShown s (revoke_error e) = ground arith
revoke_flow_reducer-IsShown s check_allowance_start = ground arith
revoke_flow_reducer-IsShown s (check_allowance_result allowance) = ground arith
revoke_flow_reducer-IsShown s confirm_zero_allowance = ground arith
revoke_flow_reducer-IsShown s zero_allowance_success = ground arith
revoke_flow_reducer-IsShown s (zero_allowance_error e) = ground arith
revoke_flow_reducer-IsShown s skip_allowance = ground arith
