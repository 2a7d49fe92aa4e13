-- ===== src/Api/Routes/Charges/Queuing.antt =====
-- apps/api/src/routes/charges.ts: what the transaction that queues the charge of an authorization writes, and the answer.
use stellar_journey.Base.{
  ℕ, suc, ◌≡◌, refl, sym, ap, subst, String, Bool, true, false, none, some, ◌∷◌, arith, find_where,
  count_where, update_where,
}
use stellar_journey.Base.Effect.{returned, thrown, and_then, pure}
use stellar_journey.Base.Effect.Inversion.{or_throw_inv, settle_inv}
use stellar_journey.Stellar.Authorization.{Validation}
use stellar_journey.Store.{
  ChargeRequest, ChargeAuthorization, ready, api_error, product_of, Merchant, World, Job,
}
use stellar_journey.Api.ChargeStatus.{scheduled}
use stellar_journey.Api.Routes.{decimals_of}
use stellar_journey.Api.Routes.Charges.{
  ChargeDeps, ChargeRequestResponse, to_charge_request_response,
}
use stellar_journey.Api.Routes.Charges.Complete.{
  is_open_authorization, is_request_of, request_row, signed_row, accept_validation, create_request,
  create_once, queue_charge, answer, clashes,
}

module _ (deps : ChargeDeps) (merchant : Merchant) where
  -- The charge that was queued for an authorization, and how the authorization stands then.
  pub record IsQueued (w w' : World) (authorization : ChargeAuthorization) (ciphertext : String)
      (row : ChargeRequest) : Type 0 where
    pub as_issued : row ≡ request_row deps merchant (deps.uuid w.uuids) w.clock authorization
    -- The charge, column by column, and what marks the authorization.
    pub terms : row ≡ record {
      id = deps.uuid w.uuids;
      merchant_id = merchant.id;
      mandate_id = authorization.mandate_id;
      charge_id = authorization.charge_id;
      amount = authorization.amount;
      invoice_hash = authorization.invoice_hash;
      scheduled_for = authorization.scheduled_for;
      status = scheduled;
      attempt_count = 0;
      failure_code = none;
      transaction_hash = none;
      next_attempt_at = none;
      authorization_id = some authorization.id;
      created_at = w.clock;
      updated_at = w.clock;
    }
    pub signed :
        (a : ChargeAuthorization)
        → signed_row deps merchant ciphertext a
          ≡ record a { status = ready; signed_entry_ciphertext = some ciphertext }
    pub new : count_where (clashes deps merchant row) w.charge_requests ≡ 0
    pub queued : w'.charge_requests ≡ row ∷ w.charge_requests
    pub marked :
        w'.authorizations
        ≡ update_where
            (is_open_authorization merchant.id authorization.id)
            (signed_row deps merchant ciphertext)
            w.authorizations
    -- Nothing else is written, but that an id is drawn.
    pub written : w' ≡ record w {
      charge_requests = row ∷ w.charge_requests;
      authorizations =
          update_where
            (is_open_authorization merchant.id authorization.id)
            (signed_row deps merchant ciphertext)
            w.authorizations;
      uuids = suc w.uuids;
    }
    pub products : w'.products ≡ w.products
    pub sessions : w'.sessions ≡ w.sessions
    pub payments : w'.payments ≡ w.payments
    pub deliveries : w'.deliveries ≡ w.deliveries

  create_request_inv :
      (authorization : ChargeAuthorization) (w w' : World) (row : ChargeRequest)
      → create_request deps merchant authorization w ≡ (returned row, w')
      → (row ≡ request_row deps merchant (deps.uuid w.uuids) w.clock authorization)
        × (count_where (clashes deps merchant row) w.charge_requests ≡ 0)
        × (w' ≡ record w { uuids = suc w.uuids; charge_requests = row ∷ w.charge_requests })
  unfolding create_request
  create_request_inv authorization w w' row h = ground arith

  create_once_inv :
      (updated : Bool) (authorization : ChargeAuthorization) (w w' : World) (row : ChargeRequest)
      → find_where (is_request_of authorization.id) w.charge_requests ≡ none
      → create_once deps merchant updated authorization w ≡ (returned row, w')
      → create_request deps merchant authorization w ≡ (returned row, w')
  create_once_inv true authorization w w' row absent h = h
  create_once_inv false authorization w w' row absent h = absurd (cc (rw absent at h))

  abbrev pub marked_world : ChargeAuthorization → String → World → World
  marked_world authorization ciphertext w = record w {
    authorizations =
        update_where (is_open_authorization merchant.id authorization.id)
          (signed_row deps merchant ciphertext) w.authorizations;
  }

  queue_charge_inv :
      (authorization : ChargeAuthorization) (ciphertext : String) (w w' : World)
      (row : ChargeRequest)
      → find_where (is_request_of authorization.id) w.charge_requests ≡ none
      → queue_charge deps merchant authorization ciphertext w ≡ (returned row, w')
      → create_request deps merchant authorization (marked_world authorization ciphertext w)
        ≡ (returned row, w')
  unfolding queue_charge
  queue_charge_inv authorization ciphertext w w' row absent h =
      create_once_inv _ authorization (marked_world authorization ciphertext w) w' row absent
        (settle_inv w _ h)

  pub queued_lem :
      (authorization : ChargeAuthorization) (ciphertext : String) (w w' : World)
      (row : ChargeRequest)
      → find_where (is_request_of authorization.id) w.charge_requests ≡ none
      → queue_charge deps merchant authorization ciphertext w ≡ (returned row, w')
      → IsQueued w w' authorization ciphertext row
  queued_lem authorization ciphertext w w' row absent h =
      let (as_issued, new, after) =
        create_request_inv authorization (marked_world authorization ciphertext w) w' row
          (queue_charge_inv authorization ciphertext w w' row absent h) in
      record {
        as_issued = as_issued;
        terms = as_issued;
        signed = λ a. refl;
        new = new;
        queued = ap (λ v. v.charge_requests) after;
        marked = ap (λ v. v.authorizations) after;
        written = after;
        products = ap (λ v. v.products) after;
        sessions = ap (λ v. v.sessions) after;
        payments = ap (λ v. v.payments) after;
        deliveries = ap (λ v. v.deliveries) after;
      }

  pub answer_inv :
      (status code : ℕ) (mandate_id : String) (row : ChargeRequest)
      (response : ChargeRequestResponse) (w w' : World)
      → answer deps merchant status mandate_id row w ≡ (returned (code, response), w')
      → (decimals : ℕ) × (code ≡ status)
        × (response ≡ to_charge_request_response row decimals)
        × (w' ≡ w)
        × (decimals_of (product_of merchant.id mandate_id w') ≡ some decimals)
  answer_inv status code mandate_id row response w w' h =
      let (decimals, is, end) =
        or_throw_inv (λ decimals. pure (status, to_charge_request_response row decimals))
          (decimals_of (product_of merchant.id mandate_id w))
          (api_error 404 "MANDATE_NOT_LINKED_TO_PRODUCT") w h in
      let same : w' ≡ w = cc end in
      (
        decimals,
        cc end,
        cc end,
        same,
        subst (λ v. decimals_of (product_of merchant.id mandate_id v) ≡ some decimals) (sym same)
            is,
      )

  pub accept_inv :
      (v : Validation) (k : Job (ℕ × ChargeRequestResponse)) (w w' : World)
      (reply : ℕ × ChargeRequestResponse)
      → and_then (λ _. k) (accept_validation deps merchant v w) ≡ (returned reply, w')
      → (e : ℕ) × (v ≡ returned e) × (k w ≡ (returned reply, w'))
  accept_inv (returned e) k w w' reply h = (e, refl, h)
  accept_inv (thrown m) k w w' reply h = absurd cc
