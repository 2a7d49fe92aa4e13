-- ===== src/System.antt =====
-- The API and the relayer together, as they write the tables of charges and payments: an abstract life of one
-- charge, and what a write of the program may do to every charge at once.
pub mod Queueing
pub mod Working
pub mod Running
mod Tests
use stellar_journey.Base.{
  ℕ, suc, ◌+◌, ◌≤◌, ◌≡◌, ◌≢◌, ◌∙◌, refl, sym, ap, subst, eq_refl, ◌⊎◌, String, Bool, true, false,
  Option, none, some, List, ◌∷◌, arith, str_eq, eq_iff, Bool-cases, inl, inr, count_where,
  if◌then◌else◌,
}
use stellar_journey.Store.{ChargeRequest, Payment, World, find_charge}
use stellar_journey.Store.Charges.{HasUniqueIds}
use stellar_journey.Api.ChargeStatus.{
  ChargeRequestStatus, scheduled, processing, simulated, submitted, succeeded, retryable_failed,
  permanently_failed,
}

-- The life of a charge, as its merchant is told of it.
pub data Phase : Type 0 where
  absent waiting in_progress paid failed : Phase

unfoldable pub phase_of_status : ChargeRequestStatus → Phase
phase_of_status scheduled = waiting
phase_of_status retryable_failed = waiting
phase_of_status processing = in_progress
phase_of_status simulated = in_progress
phase_of_status submitted = in_progress
phase_of_status succeeded = paid
phase_of_status permanently_failed = failed

unfoldable pub phase_of : Option ChargeRequest → Phase
unfolding phase_of_status
phase_of none = absent
phase_of (some row) = phase_of_status row.status

-- One step of that life.
pub data Move : Phase → Phase → Type 0 where
  is_queued : Move absent waiting
  is_started : Move waiting in_progress
  is_postponed : Move in_progress waiting
  is_paid : Move in_progress paid
  is_given_up : Move in_progress failed

pub data Moves (p : Phase) : Phase → Type 0 where
  stay : Moves p p
  step : {q r : Phase} → Moves p q → Move q r → Moves p r

pub Moves-trans : {p q r : Phase} → Moves p q → Moves q r → Moves p r
Moves-trans h stay = h
Moves-trans h (step k m) = step (Moves-trans h k) m

-- What is paid, or has failed, stays so.
abbrev pub IsFinal : Phase → Type 0
IsFinal p = (p ≡ paid) ⊎ (p ≡ failed)

Move-not-final : {p q : Phase} → Move p q → IsFinal p → ⊥
Move-not-final is_queued h = ground arith
Move-not-final is_started h = ground arith
Move-not-final is_postponed h = ground arith
Move-not-final is_paid h = ground arith
Move-not-final is_given_up h = ground arith

pub Moves-final : {p q : Phase} → Moves p q → IsFinal p → q ≡ p
Moves-final stay final = refl
Moves-final {p} (step h m) final =
    absurd (Move-not-final m (subst IsFinal (sym (Moves-final h final)) final))

-- How many payments a charge has in a phase.
unfoldable pub payments_due : Phase → ℕ
payments_due paid = 1
payments_due _ = 0

abbrev pub is_payment_for : String → Payment → Bool
is_payment_for id payment = str_eq payment.charge_request_id id

abbrev pub payments_for : String → World → ℕ
payments_for id w = count_where (is_payment_for id) w.payments

-- A write that the life of every charge allows: keys stay unique, each charge makes moves, and has a new payment
-- exactly where it comes to be paid.
pub record Advances (w w' : World) : Type 0 where
  pub unique : HasUniqueIds w'.charge_requests
  pub moves : (id : String) → Moves (phase_of (find_charge id w)) (phase_of (find_charge id w'))
  pub balance :
      (id : String)
      → payments_for id w' + payments_due (phase_of (find_charge id w))
        ≡ payments_for id w + payments_due (phase_of (find_charge id w'))

pub Advances-trans : {w v u : World} → Advances w v → Advances v u → Advances w u
Advances-trans {w} {v} {u} a b = record {
  unique = b.unique;
  moves = λ id. Moves-trans (a.moves id) (b.moves id);
  balance = λ id. omega (arith, a.balance id, b.balance id);
}

count-payment :
    (id : String) (payment : Payment) (rows : List Payment)
    → count_where (is_payment_for id) (payment ∷ rows)
      ≡ (if is_payment_for id payment then 1 else 0) + count_where (is_payment_for id) rows
unfolding count_where
count-payment id payment rows = ground arith

-- A write of one charge, whose other charges are as before.
module _ (id : String) (w w' : World) (unique : HasUniqueIds w'.charge_requests)
    (others : (other : String) → other ≢ id → find_charge other w' ≡ find_charge other w)
    (moves : Moves (phase_of (find_charge id w)) (phase_of (find_charge id w'))) where
  Moves-all :
      (other : String) → Moves (phase_of (find_charge other w)) (phase_of (find_charge other w'))
  Moves-all other = elim (Bool-cases (str_eq other id)) [
    | inl same ↦ rw ((eq_iff other id).0 same) moves
    | inr apart ↦ rw (others other (λ e. ground (arith, eq_iff other id))) stay
  ]

  pub unpaid-Advances :
      w'.payments ≡ w.payments
      → payments_due (phase_of (find_charge id w')) ≡ payments_due (phase_of (find_charge id w))
      → Advances w w'
  unpaid-Advances payments due = record {
    unique = unique;
    moves = Moves-all;
    balance = λ other. elim (Bool-cases (str_eq other id)) [
      | inl same ↦ rw (payments, (eq_iff other id).0 same) (omega (arith, due))
      | inr apart ↦ rw (payments, others other (λ e. ground (arith, eq_iff other id))) refl
    ];
  }

  pub paid-Advances :
      (payment : Payment)
      → w'.payments ≡ payment ∷ w.payments
      → payment.charge_request_id ≡ id
      → payments_due (phase_of (find_charge id w)) ≡ 0
      → payments_due (phase_of (find_charge id w')) ≡ 1
      → Advances w w'
  paid-Advances payment payments for_id before after = record {
    unique = unique;
    moves = Moves-all;
    balance = λ other. elim (Bool-cases (str_eq other id)) [
      | inl same ↦
          rw
            (
              payments,
              count-payment other payment w.payments,
              (eq_iff other id).0 same,
              for_id,
              eq_refl id,
            )
            (omega (arith, before, after))
      | inr apart ↦
          (let other_way : str_eq id other ≡ false =
              ground (arith, eq_iff id other, eq_iff other id) in
            rw
              (
                payments,
                count-payment other payment w.payments,
                for_id,
                other_way,
                others other (λ e. ground (arith, eq_iff other id)),
              )
              (omega arith))
    ];
  }
