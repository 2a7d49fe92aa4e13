-- ===== src/Relayer/Pipeline/Writes.antt =====
-- The writes of apps/relayer/src/pipeline.ts to the payment, authorization and charge tables.
use stellar_journey.Base.{
  ℕ, String, Bool, ◌||◌, not, some, ◌∷◌, str_eq, count_where, update_where, ◌==◌,
}
use stellar_journey.Base.Effect.{gets, ◌>>=◌, ◌>>◌, modify, throw_if}
use stellar_journey.Store.{
  ChargeRequest, ChargeAuthorization, Payment, database_error, Job, is_charge, is_authorization,
}

-- `payment.create`: the three keys are unique, and the database writes the time.
abbrev pub clashes : Payment → Payment → Bool
clashes new old =
    str_eq old.payment_id new.payment_id
    || str_eq old.charge_id new.charge_id
    || str_eq old.charge_request_id new.charge_request_id

unfoldable pub create_payment : (ℕ → Payment) → Job (Unit {0})
create_payment payment = do
  taken ← gets (λ w. count_where (clashes (payment w.clock)) w.payments)
  throw_if (not (taken == 0)) (database_error "P2002")
  modify (λ w. record w { payments = payment w.clock ∷ w.payments })

-- `chargeAuthorization.update`: a row that is not there is an error.
unfoldable pub update_authorization :
    String → (ℕ → ChargeAuthorization → ChargeAuthorization) → Job (Unit {0})
update_authorization id change = do
  found ← gets (λ w. count_where (is_authorization id) w.authorizations)
  throw_if (found == 0) (database_error "P2025")
  modify (λ w. record w {
    authorizations = update_where (is_authorization id) (change w.clock) w.authorizations;
  })

abbrev pub with_hash : String → ℕ → ChargeRequest → ChargeRequest
with_hash hash clock row = record row { transaction_hash = some hash; updated_at = clock }

-- `chargeRequest.update` of the transaction hash.
unfoldable pub update_transaction_hash : String → String → Job (Unit {0})
update_transaction_hash id hash = do
  found ← gets (λ w. count_where (is_charge id) w.charge_requests)
  throw_if (found == 0) (database_error "P2025")
  modify (λ w. record w {
    charge_requests = update_where (is_charge id) (with_hash hash w.clock) w.charge_requests;
  })
