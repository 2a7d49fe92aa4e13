-- ===== src/System/Queueing.antt =====
-- What the completion of an authorization (apps/api/src/routes/charges.ts) does to every charge, whether it
-- answers or throws.
use stellar_journey.Base.{
  ℕ, ◌≤◌, ◌≡◌, ◌≢◌, ◌∙◌, ◌⊎◌, inl, inr, refl, sym, ap, subst, String, Bool, true, false, not,
  Option, none, some, List, ◌∷◌, arith, str_eq, eq_iff, eq_refl, Bool-cases, find_where,
  count_where, count_where-le, none_of_count_where, ◌==◌,
}
use stellar_journey.Base.Effect.{
  Result, returned, thrown, and_then, settle, or_throw, throw_if, ◌>>=◌, gets,
}
use stellar_journey.Stellar.Authorization.{Validation, validate_charge_authorization}
use stellar_journey.Store.{
  ChargeRequest, ChargeAuthorization, Merchant, World, Fault, Job, api_error, rejected, is_charge,
  find_charge, log_call, read_ledger,
}
use stellar_journey.Store.Charges.{HasUniqueIds}
use stellar_journey.Api.ChargeStatus.{scheduled}
use stellar_journey.Api.Routes.{validation_error, get_latest_ledger}
use stellar_journey.Api.Routes.Charges.{ChargeDeps, is_authorization_of}
use stellar_journey.Api.Routes.Charges.Complete.{
  is_open_authorization, is_pending, is_request_of, answer, validation_input, accept_validation,
  request_row, clashes, create_request, create_once, queue_charge, bad_size, complete_valid,
  complete_at, complete_pending, complete_found, complete_read, complete_charge_authorization,
}
use stellar_journey.Api.Routes.Charges.Queuing.{marked_world}
use stellar_journey.System.{
  phase_of_status, phase_of, is_queued, stay, step, payments_due, Advances, unpaid-Advances,
}
use stellar_journey.System.Working.{same-Advances}

-- The two tables stand as they did.
abbrev Same : World → World → Type 0
Same w w' = (w'.charge_requests ≡ w.charge_requests) × (w'.payments ≡ w.payments)

-- One new charge waits.
record Queued (w w' : World) : Type 0 where
  pub row : ChargeRequest
  pub waits : row.status ≡ scheduled
  pub fresh : count_where (is_charge row.id) w.charge_requests ≡ 0
  pub queued : w'.charge_requests ≡ row ∷ w.charge_requests
  pub payments : w'.payments ≡ w.payments

abbrev Writes : World → World → Type 0
Writes w w' = Same w w' ⊎ Queued w w'

module _ {A B : Type 0} (k : A → Job B) where
  -- A step that leaves the tables, and what follows it.
  after_Same :
      (w : World) (r : Result Fault A × World)
      → Same w r.1
      → ((a : A) (v : World) → Writes v (k a v).1)
      → Writes w (and_then k r).1
  after_Same w (thrown e, v) s h = inl s
  after_Same w (returned a, v) s h = moved (h a v)
    where
      moved : Writes v (k a v).1 → Writes w (k a v).1
      moved (inl t) = inl (t.0 ∙ s.0, t.1 ∙ s.1)
      moved (inr q) = inr (record {
        row = q.row;
        waits = q.waits;
        fresh = subst (λ rows. count_where (is_charge q.row.id) rows ≡ 0) s.0 q.fresh;
        queued = q.queued ∙ ap (λ rows. q.row ∷ rows) s.0;
        payments = q.payments ∙ s.1;
      })

  -- A step and what follows it, which leaves the tables.
  then_Same :
      (w : World) (r : Result Fault A × World)
      → Writes w r.1
      → ((a : A) (v : World) → Same v (k a v).1)
      → Writes w (and_then k r).1
  then_Same w (thrown e, v) s h = s
  then_Same w (returned a, v) (inl s) h = inl ((h a v).0 ∙ s.0, (h a v).1 ∙ s.1)
  then_Same w (returned a, v) (inr q) h = inr (record {
    row = q.row;
    waits = q.waits;
    fresh = q.fresh;
    queued = (h a v).0 ∙ q.queued;
    payments = (h a v).1 ∙ q.payments;
  })

settle-Writes :
    {A : Type 0} (w : World) (r : Result Fault A × World) → Writes w r.1 → Writes w (settle w r).1
settle-Writes w (returned a, v) h = h
settle-Writes w (thrown e, v) h = inl (refl, refl)

or_throw-Same : {A : Type 0} (o : Option A) (e : Fault) (w : World) → Same w (or_throw o e w).1
or_throw-Same none e w = (refl, refl)
or_throw-Same (some a) e w = (refl, refl)

throw_if-Same : (t : Bool) (e : Fault) (w : World) → Same w (throw_if t e w).1
throw_if-Same true e w = (refl, refl)
throw_if-Same false e w = (refl, refl)

module _ (w w' : World) (unique : HasUniqueIds w.charge_requests) (q : Queued w w') where
  was_absent : find_charge q.row.id w ≡ none
  was_absent = none_of_count_where (is_charge q.row.id) w.charge_requests q.fresh

  now_there : find_charge q.row.id w' ≡ some q.row
  unfolding find_where
  now_there = ap (find_where (is_charge q.row.id)) q.queued ∙ rw (eq_refl q.row.id) refl

  others_there : (other : String) → other ≢ q.row.id → find_charge other w' ≡ find_charge other w
  unfolding find_where
  others_there other ne = ap (find_where (is_charge other)) q.queued ∙ rw (apart) refl
    where
      apart : str_eq q.row.id other ≡ false
      apart = ground (arith, eq_iff q.row.id other)

  fresh_one :
      (id : String) → q.row.id ≡ id → count_where (is_charge id) (q.row ∷ w.charge_requests) ≤ 1
  unfolding count_where
  fresh_one id same =
      subst (λ key. count_where (is_charge key) (q.row ∷ w.charge_requests) ≤ 1) same
        (rw (eq_refl q.row.id) (omega (arith, q.fresh)))

  still_unique : HasUniqueIds w'.charge_requests
  unfolding count_where
  still_unique id =
      subst (λ rows. count_where (is_charge id) rows ≤ 1) (sym q.queued)
        (elim (Bool-cases (str_eq q.row.id id)) [
          | inl same ↦ fresh_one id ((eq_iff q.row.id id).0 same)
          | inr apart ↦ rw apart (unique id)
        ])

  queued-Advances : Advances w w'
  unfolding phase_of phase_of_status payments_due
  queued-Advances =
      unpaid-Advances q.row.id w w' still_unique others_there
        (rw (was_absent, now_there, q.waits) (step stay is_queued)) q.payments
        (rw (was_absent, now_there, q.waits) refl)

Writes-Advances : (w w' : World) → HasUniqueIds w.charge_requests → Writes w w' → Advances w w'
Writes-Advances w w' unique (inl same) = same-Advances w w' unique same.0 same.1
Writes-Advances w w' unique (inr q) = queued-Advances w w' unique q

module _ (deps : ChargeDeps) (merchant : Merchant) where
  answer-Same :
      (status : ℕ) (mandate_id : String) (row : ChargeRequest) (w : World)
      → Same w (answer deps merchant status mandate_id row w).1
  answer-Same status mandate_id row w = ground arith

  accept-Same : (v : Validation) (w : World) → Same w (accept_validation deps merchant v w).1
  accept-Same (returned e) w = (refl, refl)
  accept-Same (thrown m) w = (refl, refl)

  ledger-Same : (w : World) → Same w (get_latest_ledger deps.reader w).1
  ledger-Same w =
      or_throw-Same deps.reader.get_latest_ledger_sequence rejected (log_call read_ledger w)

  create_request-Writes :
      (authorization : ChargeAuthorization) (w : World)
      → Writes w (create_request deps merchant authorization w).1
  unfolding create_request
  create_request-Writes authorization w =
      let row = request_row deps merchant (deps.uuid w.uuids) w.clock authorization in
      elim (Bool-cases (count_where (clashes deps merchant row) w.charge_requests == 0)) [
        | inl new ↦ rw new (
            inr (record {
              row = row;
              waits = refl;
              fresh = none_of row w.charge_requests (ground arith);
              queued = refl;
              payments = refl;
            }))
        | inr taken ↦ rw taken (inl (refl, refl))
      ]
    where
      none_of :
          (row : ChargeRequest) (rows : List ChargeRequest)
          → count_where (clashes deps merchant row) rows ≡ 0
          → count_where (is_charge row.id) rows ≡ 0
      none_of row rows h = omega (
        arith,
        h,
        count_where-le (is_charge row.id) (clashes deps merchant row) (λ r e. rw e refl) rows,
      )

  create_once-Writes :
      (updated : Bool) (authorization : ChargeAuthorization) (w : World)
      → Writes w (create_once deps merchant updated authorization w).1
  create_once-Writes true authorization w = create_request-Writes authorization w
  create_once-Writes false authorization w = inl (
      or_throw-Same (find_where (is_request_of authorization.id) w.charge_requests)
        (api_error 409 "CHARGE_AUTHORIZATION_ALREADY_USED") w)

  queue_charge-Writes :
      (authorization : ChargeAuthorization) (ciphertext : String) (w : World)
      → Writes w (queue_charge deps merchant authorization ciphertext w).1
  unfolding queue_charge
  queue_charge-Writes authorization ciphertext w =
      let updated =
        count_where (is_open_authorization merchant.id authorization.id) w.authorizations == 1 in
      settle-Writes w
        (create_once deps merchant updated authorization
          (marked_world deps merchant authorization ciphertext w))
        (after_Same (λ (u : Unit {0}). create_once deps merchant updated authorization) w
          (returned tt, marked_world deps merchant authorization ciphertext w) (refl, refl)
          (λ u v. create_once-Writes updated authorization v))

  complete_valid-Writes :
      (authorization : ChargeAuthorization) (signed : String) (w : World)
      → Writes w (complete_valid deps merchant authorization signed w).1
  unfolding complete_valid
  complete_valid-Writes authorization signed w =
      after_Same
        (λ ciphertext.
          queue_charge deps merchant authorization ciphertext
          >>= answer deps merchant 201 authorization.mandate_id)
        w (or_throw (deps.encrypt signed) rejected w)
        (or_throw-Same (deps.encrypt signed) rejected w)
        (λ ciphertext v.
          then_Same (answer deps merchant 201 authorization.mandate_id) v
            (queue_charge deps merchant authorization ciphertext v)
            (queue_charge-Writes authorization ciphertext v)
            (λ row u. answer-Same 201 authorization.mandate_id row u))

  complete_at-Writes :
      (authorization : ChargeAuthorization) (signed : String) (latest : ℕ) (w : World)
      → Writes w (complete_at deps merchant authorization signed latest w).1
  unfolding complete_at
  complete_at-Writes authorization signed latest w =
      let v =
        validate_charge_authorization deps.sdk
          (validation_input deps merchant authorization signed latest) in
      after_Same (λ (u : Unit {0}). complete_valid deps merchant authorization signed) w
        (accept_validation deps merchant v w) (accept-Same v w)
        (λ u x. complete_valid-Writes authorization signed x)

  complete_pending-Writes :
      (authorization : ChargeAuthorization) (signed : String) (w : World)
      → Writes w (complete_pending deps merchant authorization signed w).1
  unfolding complete_pending
  complete_pending-Writes authorization signed w =
      let shut = not (is_pending authorization.status) in
      let e = api_error 409 "CHARGE_AUTHORIZATION_NOT_PENDING" in
      after_Same
        (λ (u : Unit {0}).
          get_latest_ledger deps.reader >>= complete_at deps merchant authorization signed)
        w (throw_if shut e w) (throw_if-Same shut e w)
        (λ u v.
          after_Same (complete_at deps merchant authorization signed) v
            (get_latest_ledger deps.reader v) (ledger-Same v)
            (λ latest x. complete_at-Writes authorization signed latest x))

  complete_found-Writes :
      (authorization : ChargeAuthorization) (signed : String) (o : Option ChargeRequest) (w : World)
      → Writes w (complete_found deps merchant authorization signed o w).1
  complete_found-Writes authorization signed (some row) w =
      inl (answer-Same 200 authorization.mandate_id row w)
  complete_found-Writes authorization signed none w = complete_pending-Writes authorization signed w

  complete-Writes :
      (id signed : String) (w : World)
      → Writes w (complete_charge_authorization deps merchant id signed w).1
  unfolding complete_charge_authorization
  complete-Writes id signed w =
      let bad = bad_size deps merchant signed in
      let missing = api_error 404 "CHARGE_AUTHORIZATION_NOT_FOUND" in
      after_Same
        (λ (u : Unit {0}).
          gets (λ v. find_where (is_authorization_of merchant.id id) v.authorizations) >>= λ found.
          or_throw found missing >>= complete_read deps merchant signed)
        w (throw_if bad validation_error w) (throw_if-Same bad validation_error w)
        (λ u v.
          let found = find_where (is_authorization_of merchant.id id) v.authorizations in
          after_Same (complete_read deps merchant signed) v (or_throw found missing v)
            (or_throw-Same found missing v)
            (λ authorization x.
              complete_found-Writes authorization signed
                (find_where (is_request_of authorization.id) x.charge_requests) x))

  -- A completion, whatever it answers.
  pub complete-Advances :
      (id signed : String) (w : World)
      → HasUniqueIds w.charge_requests
      → Advances w (complete_charge_authorization deps merchant id signed w).1
  complete-Advances id signed w unique =
      Writes-Advances w (complete_charge_authorization deps merchant id signed w).1 unique
        (complete-Writes id signed w)
