-- ===== src/System/Running.antt =====
-- Sequences of steps of the API and the relayer over one store: completions of authorizations, runs of jobs and
-- recoveries, in any order, each with a chain, a cipher and a clock of its own, and whatever else writes neither
-- the charges nor the payments.
use stellar_journey.Base.{ℕ, ◌≡◌, refl, sym, ap, subst, String, arith}
use stellar_journey.Store.{Merchant, World, find_charge}
use stellar_journey.Store.Charges.{HasUniqueIds}
use stellar_journey.Api.Routes.Charges.{ChargeDeps}
use stellar_journey.Api.Routes.Charges.Complete.{complete_charge_authorization}
use stellar_journey.Relayer.Pipeline.Outcome.{PipelineDeps}
use stellar_journey.Relayer.Pipeline.Process.{process_charge_request}
use stellar_journey.Relayer.Scheduler.{recover_stale_pre_submission_charges}
use stellar_journey.System.{
  phase_of, IsFinal, Moves-final, payments_due, payments_for, Advances, Advances-trans,
}
use stellar_journey.System.Working.{same-Advances, run-Advances, recover-Advances}
use stellar_journey.System.Queueing.{complete-Advances}

pub data Step (w w' : World) : Type 0 where
  completes :
      (deps : ChargeDeps) (merchant : Merchant) (id signed : String)
      → w' ≡ (complete_charge_authorization deps merchant id signed w).1
      → Step w w'
  works :
      (deps : PipelineDeps) (id : String) → w' ≡ (process_charge_request deps id w).1 → Step w w'
  recovers :
      (now stale_after : ℕ)
      → w' ≡ (recover_stale_pre_submission_charges now stale_after w).1
      → Step w w'
  elsewhere : w'.charge_requests ≡ w.charge_requests → w'.payments ≡ w.payments → Step w w'

pub data Runs (w : World) : World → Type 0 where
  here : Runs w w
  next : {v u : World} → Runs w v → Step v u → Runs w u

step-Advances : (w w' : World) → HasUniqueIds w.charge_requests → Step w w' → Advances w w'
step-Advances w w' unique (completes deps merchant id signed e) =
    subst (Advances w) (sym e) (complete-Advances deps merchant id signed w unique)
step-Advances w w' unique (works deps id e) =
    subst (Advances w) (sym e) (run-Advances deps id w unique)
step-Advances w w' unique (recovers now stale_after e) =
    subst (Advances w) (sym e) (recover-Advances now stale_after w unique)
step-Advances w w' unique (elsewhere charges payments) = same-Advances w w' unique charges payments

-- Where charge keys are unique, a sequence of completions of authorizations, runs of charge jobs
-- and recoveries, with whatever chain, cipher and clock, and of steps that write neither charges
-- nor payments, keeps them unique and implements the abstract life of a charge: each charge goes
-- only from absent to waiting, between waiting and in progress, and from in progress to paid or
-- failed, and it has one payment more exactly where it came to be paid.
pub Runs-Advances : (w w' : World) → HasUniqueIds w.charge_requests → Runs w w' → Advances w w'
Runs-Advances w w' unique here = same-Advances w w unique refl refl
Runs-Advances w w' unique (next {v} {u} before now) =
    let so_far = Runs-Advances w v unique before in
    Advances-trans so_far (step-Advances v u so_far.unique now)

-- Keys are unique, and a charge has one payment if it is paid, and none if it is not.
pub record IsConsistent (w : World) : Type 0 where
  pub unique : HasUniqueIds w.charge_requests
  pub settled : (id : String) → payments_for id w ≡ payments_due (phase_of (find_charge id w))

-- Where charge keys are unique and every charge has one payment if it has succeeded and none if
-- it has not, the same holds after every sequence of completions of authorizations, runs of
-- charge jobs, recoveries, and steps that write neither charges nor payments.
pub Runs-IsConsistent : (w w' : World) → IsConsistent w → Runs w w' → IsConsistent w'
Runs-IsConsistent w w' consistent runs =
    let advances = Runs-Advances w w' consistent.unique runs in
    record {
      unique = advances.unique;
      settled = λ id. omega (arith, advances.balance id, consistent.settled id);
    }

-- Where charge keys are unique, a charge that has succeeded or failed for good stays so and gets
-- no further payment, whatever completions of authorizations, runs of charge jobs, recoveries,
-- and steps that write neither charges nor payments follow.
pub settled_once :
    (w w' : World) (id : String)
    → HasUniqueIds w.charge_requests
    → IsFinal (phase_of (find_charge id w))
    → Runs w w'
    → (phase_of (find_charge id w') ≡ phase_of (find_charge id w))
      × (payments_for id w' ≡ payments_for id w)
settled_once w w' id unique final runs =
    let advances = Runs-Advances w w' unique runs in
    let same = Moves-final (advances.moves id) final in
    (same, omega (arith, advances.balance id, ap payments_due same))
