-- ===== src/Api/Routes/Charges/Completing.antt =====
-- What a completed authorization leaves behind.
use stellar_journey.Base.{
  ℕ, ◌≡◌, ◌∙◌, refl, sym, ap, subst, ◌⊎◌, String, false, not, Option, none, some, arith, find_where,
  eq_refl, find_where-update, Bool-cases, inl, inr, if◌then◌else◌,
}
use stellar_journey.Base.Effect.{returned, gets, or_throw, ◌>>=◌}
use stellar_journey.Base.Effect.Inversion.{and_then_inv, or_throw_inv, throw_if_inv}
use stellar_journey.Stellar.Authorization.{validate_charge_authorization}
use stellar_journey.Stellar.Authorization.Laws.{Authorizes, validate_charge_authorization_iff}
use stellar_journey.Store.{
  ChargeRequest, ChargeAuthorization, AuthorizationStatus, pending_signature, ready, expired,
  consumed, api_error, rejected, product_of, Merchant, World, Fault, log_call, read_ledger,
}
use stellar_journey.Api.Routes.{decimals_of, get_latest_ledger, validation_error}
use stellar_journey.Api.Routes.Charges.{
  ChargeDeps, ChargeRequestResponse, to_charge_request_response, is_authorization_of,
}
use stellar_journey.Api.Routes.Charges.Complete.{
  is_pending, is_open_authorization, is_request_of, signed_row, validation_input, queue_charge,
  answer, complete_read, bad_size, complete_pending, complete_at, complete_valid, complete_found,
  complete_charge_authorization,
}
use stellar_journey.Api.Routes.Charges.Queuing.{IsQueued, queued_lem, answer_inv, accept_inv}

is_pending_lem : (s : AuthorizationStatus) → not (is_pending s) ≡ false → s ≡ pending_signature
is_pending_lem pending_signature h = refl
is_pending_lem ready h = cc
is_pending_lem expired h = cc
is_pending_lem consumed h = cc

module _ (deps : ChargeDeps) (merchant : Merchant) where
  -- A completion that queued a charge: what was checked, and what it left.
  pub record Completed (signed : String) (authorization : ChargeAuthorization) (w w' : World)
      (response : ChargeRequestResponse) : Type 0 where
    pub pending : authorization.status ≡ pending_signature
    pub latest : ℕ
    pub ledger : deps.reader.get_latest_ledger_sequence ≡ some latest
    pub authorizes :
        Authorizes deps.sdk
          (validation_input deps merchant authorization signed latest)
          authorization.signature_expiration_ledger
    pub ciphertext : String
    pub encrypted : deps.encrypt signed ≡ some ciphertext
    pub row : ChargeRequest
    pub decimals : ℕ
    pub is_queued : IsQueued deps merchant (log_call read_ledger w) w' authorization ciphertext row
    pub known : decimals_of (product_of merchant.id authorization.mandate_id w') ≡ some decimals
    pub answered : response ≡ to_charge_request_response row decimals

  complete_pending_inv :
      (authorization : ChargeAuthorization) (signed : String) (w w' : World) (status : ℕ)
      (response : ChargeRequestResponse)
      → find_where (is_request_of authorization.id) w.charge_requests ≡ none
      → complete_pending deps merchant authorization signed w ≡ (returned (status, response), w')
      → (status ≡ 201) × Completed signed authorization w w' response
  unfolding complete_pending complete_at complete_valid
  complete_pending_inv authorization signed w w' status response absent h =
      let (pending, read) =
        throw_if_inv
          (λ _. get_latest_ledger deps.reader >>= complete_at deps merchant authorization signed)
          (not (is_pending authorization.status)) (api_error 409 "CHARGE_AUTHORIZATION_NOT_PENDING")
          w h in
      let (latest, ledger, at) =
        or_throw_inv (complete_at deps merchant authorization signed)
          deps.reader.get_latest_ledger_sequence rejected (log_call read_ledger w) read in
      let (expiration, validated, valid) =
        accept_inv deps merchant
          (validate_charge_authorization deps.sdk
            (validation_input deps merchant authorization signed latest))
          (complete_valid deps merchant authorization signed) (log_call read_ledger w) w'
          (status, response) at in
      let (ciphertext, encrypted, queue) =
        or_throw_inv
          (λ ciphertext.
            queue_charge deps merchant authorization ciphertext
            >>= answer deps merchant 201 authorization.mandate_id)
          (deps.encrypt signed) rejected (log_call read_ledger w) valid in
      let (row, w1, queued, replied) =
        and_then_inv (answer deps merchant 201 authorization.mandate_id)
          (queue_charge deps merchant authorization ciphertext (log_call read_ledger w)) queue in
      let (decimals, code, answered, same, known) =
        answer_inv deps merchant 201 status authorization.mandate_id row response w1 w' replied in
      let a : Authorizes deps.sdk (validation_input deps merchant authorization signed latest)
          expiration =
        (validate_charge_authorization_iff deps.sdk
            (validation_input deps merchant authorization signed latest) expiration).0
          validated in
      (
        code,
        record {
          pending = is_pending_lem authorization.status pending;
          latest = latest;
          ledger = ledger;
          authorizes =
              subst
                (Authorizes deps.sdk (validation_input deps merchant authorization signed latest))
                (a.as_issued authorization.signature_expiration_ledger refl) a;
          ciphertext = ciphertext;
          encrypted = encrypted;
          row = row;
          decimals = decimals;
          is_queued =
              queued_lem deps merchant authorization ciphertext (log_call read_ledger w) w' row
                absent (queued ∙ ap (λ v. (returned row, v)) (sym same));
          known = known;
          answered = answered;
        },
      )

  abbrev pub AnsweredBefore :
      ChargeAuthorization → World → World → ℕ → ChargeRequestResponse → Type 0
  AnsweredBefore authorization w w' status response =
      (row : ChargeRequest) × (decimals : ℕ) × (find_where (is_request_of authorization.id)
          w.charge_requests
        ≡ some row)
      × (status ≡ 200)
      × (w' ≡ w)
      × (response ≡ to_charge_request_response row decimals)

  abbrev pub QueuedNow :
      String → ChargeAuthorization → World → World → ℕ → ChargeRequestResponse → Type 0
  QueuedNow signed authorization w w' status response =
      (find_where (is_request_of authorization.id) w.charge_requests ≡ none)
      × (status ≡ 201)
      × Completed signed authorization w w' response

  complete_found_inv :
      (authorization : ChargeAuthorization) (signed : String) (existing : Option ChargeRequest)
      (w w' : World) (status : ℕ) (response : ChargeRequestResponse)
      → find_where (is_request_of authorization.id) w.charge_requests ≡ existing
      → complete_found deps merchant authorization signed existing w
        ≡ (returned (status, response), w')
      → AnsweredBefore authorization w w' status response
        ⊎ QueuedNow signed authorization w w' status response
  complete_found_inv authorization signed (some row) w w' status response is h =
      let (decimals, code, answered, same, known) =
        answer_inv deps merchant 200 status authorization.mandate_id row response w w' h in
      inl (row, decimals, is, code, same, answered)
  complete_found_inv authorization signed none w w' status response is h =
      let (code, completed) = complete_pending_inv authorization signed w w' status response is h in
      inr (is, code, completed)

  abbrev missing : Fault
  missing = api_error 404 "CHARGE_AUTHORIZATION_NOT_FOUND"

  -- The authorization is found again, and its request.
  still_there :
      (id ciphertext : String) (w w' : World) (authorization : ChargeAuthorization)
      (row : ChargeRequest)
      → find_where (is_authorization_of merchant.id id) w.authorizations ≡ some authorization
      → IsQueued deps merchant w w' authorization ciphertext row
      → (after : ChargeAuthorization) × (after.id ≡ authorization.id)
        × (after.mandate_id ≡ authorization.mandate_id)
        × (find_where (is_authorization_of merchant.id id) w'.authorizations ≡ some after)
  still_there id ciphertext w w' authorization row found q =
      elim (Bool-cases (is_open_authorization merchant.id authorization.id authorization)) [
        | inl open_one ↦
            (signed_row deps merchant ciphertext authorization, refl, refl, there ∙ rw open_one)
        | inr shut_one ↦ (authorization, refl, refl, there ∙ rw shut_one)
      ]
    where
      there :
          find_where (is_authorization_of merchant.id id) w'.authorizations
          ≡ some (
              if is_open_authorization merchant.id authorization.id authorization
              then signed_row deps merchant ciphertext authorization
              else authorization)
      there =
          ap (find_where (is_authorization_of merchant.id id)) q.marked
          ∙ find_where-update (is_open_authorization merchant.id authorization.id)
              (is_authorization_of merchant.id id) (signed_row deps merchant ciphertext) (λ r. refl)
              w.authorizations authorization found

  request_there :
      (ciphertext : String) (w w' : World) (authorization : ChargeAuthorization)
      (row : ChargeRequest)
      → IsQueued deps merchant w w' authorization ciphertext row
      → find_where (is_request_of authorization.id) w'.charge_requests ≡ some row
  unfolding find_where
  request_there ciphertext w w' authorization row q =
      ap (find_where (is_request_of authorization.id)) q.queued
      ∙ rw (ap (is_request_of authorization.id) q.as_issued ∙ eq_refl authorization.id)

  again_lem :
      (id again : String) (w : World) (row : ChargeRequest) (decimals : ℕ)
      (authorization : ChargeAuthorization)
      → bad_size deps merchant again ≡ false
      → find_where (is_authorization_of merchant.id id) w.authorizations ≡ some authorization
      → find_where (is_request_of authorization.id) w.charge_requests ≡ some row
      → decimals_of (product_of merchant.id authorization.mandate_id w) ≡ some decimals
      → complete_charge_authorization deps merchant id again w
        ≡ (returned (200, to_charge_request_response row decimals), w)
  unfolding complete_charge_authorization
  again_lem id again w row decimals authorization size found there known =
      rw (size, found, there, known)

  module _ (id signed : String) (w w' : World) (status : ℕ) (response : ChargeRequestResponse)
      (h : complete_charge_authorization deps merchant id signed w
        ≡ (returned (status, response), w')) where
    -- A completion that answers has found the merchant's authorization of that id. Either its
    -- charge was queued before, and the answer is 200 with that charge and nothing is written; or
    -- none was, the answer is 201, the authorization was pending, the signed entry authorizes
    -- exactly that charge until the issued expiry, and one new scheduled charge with the terms of
    -- the authorization is in the store, with the authorization marked as signed; every other
    -- table is as it was, and so is the rest of the store, but that an id is drawn and the read
    -- of the ledger is logged.
    pub complete_charge_authorization_lem :
        (authorization : ChargeAuthorization) × (find_where
            (is_authorization_of merchant.id id)
            w.authorizations
          ≡ some authorization)
        × (AnsweredBefore authorization w w' status response
            ⊎ QueuedNow signed authorization w w' status response)
    unfolding complete_charge_authorization
    complete_charge_authorization_lem =
        let (size, look) =
          throw_if_inv
            (λ _.
              gets (λ v. find_where (is_authorization_of merchant.id id) v.authorizations)
              >>= λ found. or_throw found missing >>= complete_read deps merchant signed)
            (bad_size deps merchant signed) validation_error w h in
        let (authorization, found, next) =
          or_throw_inv (complete_read deps merchant signed)
            (find_where (is_authorization_of merchant.id id) w.authorizations) missing w look in
        (
          authorization,
          found,
          complete_found_inv authorization signed _ w w' status response refl next,
        )

  -- After a completion that answers 201, a completion of the same authorization with any signed
  -- text of an allowed size is answered 200 with the same charge and writes nothing.
  pub completed_again :
      (id signed again : String) (w w' : World) (response : ChargeRequestResponse)
      → bad_size deps merchant again ≡ false
      → complete_charge_authorization deps merchant id signed w ≡ (returned (201, response), w')
      → complete_charge_authorization deps merchant id again w' ≡ (returned (200, response), w')
  completed_again id signed again w w' response size h =
      of_end (complete_charge_authorization_lem id signed w w' 201 response h)
    where
      of_end :
          (authorization : ChargeAuthorization) × (find_where
                (is_authorization_of merchant.id id)
                w.authorizations
              ≡ some authorization)
            × (AnsweredBefore authorization w w' 201 response
                ⊎ QueuedNow signed authorization w w' 201 response)
          → complete_charge_authorization deps merchant id again w' ≡ (returned (200, response), w')
      of_end (authorization, found, inl before) = absurd (omega (arith, before.3))
      of_end (authorization, found, inr (absent, code, c)) =
          let (after, same, same_mandate, here) =
            still_there id c.ciphertext (log_call read_ledger w) w' authorization c.row found
              c.is_queued in
          let there =
            request_there c.ciphertext (log_call read_ledger w) w' authorization c.row
              c.is_queued in
          again_lem id again w' c.row c.decimals after size here
            (subst (λ key. find_where (is_request_of key) w'.charge_requests ≡ some c.row)
              (sym same) there)
            (subst (λ m. decimals_of (product_of merchant.id m w') ≡ some c.decimals)
              (sym same_mandate) c.known)
          ∙ ap (λ r. (returned (200, r), w')) (sym c.answered)
