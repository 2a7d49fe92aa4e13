-- ===== src/Relayer/Pipeline/Running.antt =====
-- apps/relayer/src/pipeline.ts: `processChargeRequest` as a whole.
use stellar_journey.Base.{
  ℕ, ◌+◌, ◌≤◌, ◌≡◌, ◌≢◌, ◌⊎◌, refl, sym, subst, inl, String, Bool, true, false, Option, none, some,
  arith, str_eq, eq_iff, found_passes,
}
use stellar_journey.Base.Effect.{Result, returned, thrown}
use stellar_journey.Store.{
  ChargeRequest, World, Fault, read_mandate, log_call, find_charge, is_charge,
}
use stellar_journey.Store.Charges.{HasUniqueIds}
use stellar_journey.Api.ChargeStatus.{
  ChargeRequestStatus, scheduled, processing, retryable_failed, is_legal, eq_status,
}
use stellar_journey.Api.ChargeStatus.Transition.{moved, move_rows}
use stellar_journey.Api.ChargeStatus.Transition.Laws.{transition_lem}
use stellar_journey.Client.Mandate.{Mandate}
use stellar_journey.Relayer.Retry.Laws.{next_retry_at-some_iff}
use stellar_journey.Relayer.Gateway.{
  MandateRead, mandate_found, mandate_read_error, mandate_unavailable,
}
use stellar_journey.Relayer.Context.{ChargeContext, resolve_charge_context}
use stellar_journey.Relayer.Retry.{max_attempts, next_retry_at}
use stellar_journey.Relayer.Retry.Laws.{next_retry_at-some_iff}
use stellar_journey.Relayer.Pipeline.Outcome.{
  PipelineDeps, PipelineOutcome, skipped_not_claimable, succeeded, retry_scheduled,
  permanently_failed,
}
use stellar_journey.Relayer.Pipeline.Process.{
  check_merchant, after_context, after_mandate_read, run_claimed, claim_from, claim_patch, claim,
  process_charge_request,
}
use stellar_journey.Relayer.Pipeline.State.{Holds, transition_runs, move_rows-Holds}
use stellar_journey.Relayer.Pipeline.Ends.{at_processing, Ends}
use stellar_journey.Relayer.Pipeline.Failing.{fail-Ends, fail_classified-Ends}
use stellar_journey.Relayer.Pipeline.Preparing.{Before, Agreed, log_call-Before}
use stellar_journey.Relayer.Pipeline.Authorizing.{load_authorization-Ends}

module _ (deps : PipelineDeps) (row : ChargeRequest) (n : ℕ) (base : World) where
  check_merchant-Ends :
      (mandate : Mandate) (context : ChargeContext) (same : Bool) (w : World)
      → Before deps row n base w
      → (same ≡ true → Agreed deps row n base mandate context)
      → Ends deps row n base (check_merchant deps row n mandate context same w)
  unfolding check_merchant
  check_merchant-Ends mandate context true w b agreed =
      load_authorization-Ends deps row n base mandate context row.authorization_id w b (agreed refl)
        refl
  check_merchant-Ends mandate context false w b agreed =
      fail-Ends deps row n base processing _ w at_processing b.working

  after_context-Ends :
      (mandate : Mandate) (context : Option ChargeContext) (w : World)
      → Before deps row n base w
      → deps.gateway.get_mandate row.mandate_id ≡ mandate_found mandate
      → resolve_charge_context row.merchant_id row.mandate_id base ≡ context
      → Ends deps row n base (after_context deps row n mandate context w)
  unfolding after_context
  after_context-Ends mandate none w b read resolved =
      fail-Ends deps row n base processing _ w at_processing b.working
  after_context-Ends mandate (some context) w b read resolved =
      check_merchant-Ends mandate context (str_eq context.merchant_wallet_address mandate.merchant)
        w b
        (λ same. record {
          read = read;
          resolved = resolved;
          merchant_agrees = (eq_iff context.merchant_wallet_address mandate.merchant).0 same;
        })

  after_mandate_read-Ends :
      (answer : MandateRead)
      → Before deps row n base (log_call (read_mandate row.mandate_id) base)
      → deps.gateway.get_mandate row.mandate_id ≡ answer
      → Ends deps row n base
          (after_mandate_read deps row n answer (log_call (read_mandate row.mandate_id) base))
  unfolding after_mandate_read resolve_charge_context
  after_mandate_read-Ends (mandate_read_error name) b read =
      fail_classified-Ends deps row n base processing _ _ at_processing b.working
  after_mandate_read-Ends mandate_unavailable b read =
      fail-Ends deps row n base processing _ _ at_processing b.working
  after_mandate_read-Ends (mandate_found mandate) b read =
      after_context-Ends mandate (resolve_charge_context row.merchant_id row.mandate_id base) _ b
        read refl

  run_claimed-Ends :
      Before deps row n base base → Ends deps row n base (run_claimed deps row n base)
  unfolding run_claimed
  run_claimed-Ends b =
      after_mandate_read-Ends (deps.gateway.get_mandate row.mandate_id)
        (log_call-Before deps row n base (read_mandate row.mandate_id) base b refl) refl

-- A row that may be claimed.
abbrev pub IsClaimable : ChargeRequest → Type 0
IsClaimable row = (row.status ≡ scheduled) ⊎ (row.status ≡ retryable_failed)

-- The store right after a claim.
abbrev pub claimed : ChargeRequest → World → World
claimed row w =
    move_rows row.id (claim_from row.status) processing (claim_patch (row.attempt_count + 1)) w

legal_claim : (s : ChargeRequestStatus) → is_legal (claim_from s) processing ≡ true
legal_claim scheduled = refl
legal_claim retryable_failed = refl
legal_claim _ = refl

claim_from_at :
    (s : ChargeRequestStatus) → (s ≡ scheduled) ⊎ (s ≡ retryable_failed) → s ≡ claim_from s
claim_from_at s h = ground arith

claim_from_elsewhere :
    (s : ChargeRequestStatus)
    → s ≢ scheduled
    → s ≢ retryable_failed
    → eq_status s (claim_from s) ≡ false
claim_from_elsewhere s h k = ground arith

-- The row that is found has the key that was looked for.
pub found_self :
    (id : String) (w : World) (row : ChargeRequest)
    → find_charge id w ≡ some row
    → find_charge row.id w ≡ some row
found_self id w row found =
    subst (λ key. find_charge key w ≡ some row)
      (sym ((eq_iff row.id id).0 (found_passes (is_charge id) w.charge_requests row found))) found

module _ (deps : PipelineDeps) (row : ChargeRequest) (w : World)
    (unique : HasUniqueIds w.charge_requests) where
  beginning : find_charge row.id w ≡ some row → Holds row.id w.charge_requests w.charge_requests row
  beginning found = record { unique = unique; found = found; others = λ other ne. refl }

  pub claimed-Holds :
      find_charge row.id w ≡ some row
      → IsClaimable row
      → Holds row.id w.charge_requests
          (claimed row w).charge_requests
          (moved w.clock processing (claim_patch (row.attempt_count + 1)) row)
  claimed-Holds found claimable =
      move_rows-Holds row.id w.charge_requests w row (beginning found) (claim_from row.status)
        processing (claim_patch (row.attempt_count + 1)) (claim_from_at row.status claimable)
        (legal_claim row.status)

  claimed-Before :
      find_charge row.id w ≡ some row
      → IsClaimable row
      → Before deps row (row.attempt_count + 1) (claimed row w) (claimed row w)
  claimed-Before found claimable =
      let here = claimed-Holds found claimable in
      record {
        working = record {
          current = moved w.clock processing (claim_patch (row.attempt_count + 1)) row;
          holds = record { unique = here.unique; found = here.found; others = λ other ne. refl };
          status = refl;
          quiet = record { payments = refl; deliveries = refl; clock = refl; grounds = inl refl };
        };
        none_yet = refl;
        authorizations = refl;
      }

  claim-Ends :
      find_charge row.id w ≡ some row
      → IsClaimable row
      → Ends deps row (row.attempt_count + 1) (claimed row w) (claim deps row w)
  unfolding claim
  claim-Ends found claimable =
      rw
        (transition_runs row.id w.charge_requests w row (beginning found) (claim_from row.status)
          processing (claim_patch (row.attempt_count + 1)) (claim_from_at row.status claimable)
          (legal_claim row.status))
        (run_claimed-Ends deps row (row.attempt_count + 1) (claimed row w)
          (claimed-Before found claimable))

  -- Where charge keys are unique, a worker whose row no longer stands where the worker read it
  -- loses the claim: it makes no call, writes nothing and reports that it was skipped.
  pub claim_stale :
      (current : ChargeRequest)
      → find_charge row.id w ≡ some current
      → eq_status current.status (claim_from row.status) ≡ false
      → claim deps row w ≡ (returned skipped_not_claimable, w)
  unfolding claim
  claim_stale current found moved_on = rw (
    transition_lem row.id (claim_from row.status) processing (claim_patch (row.attempt_count + 1)) w
        current unique found,
    legal_claim row.status,
    moved_on,
  )

-- Where charge keys are unique and the row of the job is scheduled or retryable, a run ends, for
-- every gateway, in one of four ways: one new payment with its announcement on a succeeded row, a
-- row that waits for the time of the retry schedule, a failed row whose failure is announced, or
-- a throw that leaves the row processing or submitted and settles nothing. It submits one
-- envelope at most, and only where the chain's mandate, the merchant's records, the authorization
-- and the simulated receipt agree with the row; other rows are untouched.
pub process_charge_request-Ends :
    (deps : PipelineDeps) (id : String) (w : World) (row : ChargeRequest)
    → HasUniqueIds w.charge_requests
    → find_charge id w ≡ some row
    → IsClaimable row
    → Ends deps row (row.attempt_count + 1) (claimed row w) (process_charge_request deps id w)
unfolding process_charge_request
process_charge_request-Ends deps id w row unique found claimable =
    rw found (claim-Ends deps row w unique (found_self id w row found) claimable)

-- Where charge keys are unique, a run for a row that is neither scheduled nor retryable makes no
-- call, writes nothing and reports that it was skipped.
pub process_charge_request_skipped :
    (deps : PipelineDeps) (id : String) (w : World) (row : ChargeRequest)
    → HasUniqueIds w.charge_requests
    → find_charge id w ≡ some row
    → row.status ≢ scheduled
    → row.status ≢ retryable_failed
    → process_charge_request deps id w ≡ (returned skipped_not_claimable, w)
unfolding process_charge_request
process_charge_request_skipped deps id w row unique found not_scheduled not_failed = rw found (
    claim_stale deps row w unique row (found_self id w row found)
      (claim_from_elsewhere row.status not_scheduled not_failed))

-- After the last attempt no other is due.
no_other : (n from at : ℕ) → next_retry_at n from ≡ some at → max_attempts ≤ n → ⊥
no_other n from at due spent =
    ground (arith, (next_retry_at-some_iff n from).0 (λ e. none-ne-some e due))
  where
    none-ne-some : next_retry_at n from ≡ none → next_retry_at n from ≡ some at → ⊥
    none-ne-some e due = cc

-- Where charge keys are unique, a run for a scheduled or retryable row with three attempts or
-- more behind it schedules no other attempt, whatever fails.
pub process_charge_request-last_attempt :
    (deps : PipelineDeps) (id : String) (w : World) (row : ChargeRequest) (at : ℕ) (reason : String)
    → HasUniqueIds w.charge_requests
    → find_charge id w ≡ some row
    → IsClaimable row
    → 3 ≤ row.attempt_count
    → (process_charge_request deps id w).0 ≢ returned (retry_scheduled at reason)
process_charge_request-last_attempt deps id w row at reason unique found claimable spent e =
    not_retrying _ e (process_charge_request-Ends deps id w row unique found claimable)
  where
    not_retrying :
        (end : Result Fault PipelineOutcome × World)
        → end.0 ≡ returned (retry_scheduled at reason)
        → Ends deps row (row.attempt_count + 1) (claimed row w) end
        → ⊥
    not_retrying (returned (retry_scheduled later why), w') same r =
        no_other (row.attempt_count + 1) (claimed row w).clock later r.due (ground arith)
    not_retrying (returned skipped_not_claimable, w') same r = r
    not_retrying (returned (succeeded p h), w') same r = cc same
    not_retrying (returned (permanently_failed why), w') same r = cc same
    not_retrying (thrown f, w') same r = cc same
