-- ===== src/Relayer/Pipeline/State.antt =====
-- What is known between two steps of a run, for apps/relayer/src/pipeline.ts: where the row of the
-- run stands, that the other rows are as at the claim, and what has been submitted on what grounds.
use stellar_journey.Base.{
  ℕ, suc, ◌<◌, ◌≡◌, ◌≢◌, String, true, false, Option, none, some, List, [], ◌∷◌, arith, eq_iff,
  find_where, truthy, found_passes, refl, ◌∙◌,
}
use stellar_journey.Store.{
  ChargeRequest, ChargeAuthorization, ready, World, ChainCall, submit, is_charge, is_authorization,
}
use stellar_journey.Store.Charges.{HasUniqueIds, find-update, find-update_ne, update-HasUniqueIds}
use stellar_journey.Api.ChargeStatus.{ChargeRequestStatus, is_legal, eq_status}
use stellar_journey.Api.ChargeStatus.Graph.{eq_status_iff}
use stellar_journey.Api.ChargeStatus.Transition.{ChargePatch, moved, is_at, move_rows, transition}
use stellar_journey.Api.ChargeStatus.Transition.Laws.{transition_lem}
use stellar_journey.Base.Effect.{returned}
use stellar_journey.Client.Mandate.{Mandate, PaymentReceipt}
use stellar_journey.Relayer.Gateway.{
  ChargeSubmitResult, accepted, mandate_found, ledger_sequence, prepared,
}
use stellar_journey.Relayer.Context.{ChargeContext, resolve_charge_context}
use stellar_journey.Relayer.Pipeline.Outcome.{PipelineDeps}
use stellar_journey.Relayer.Pipeline.Prepare.{verification_ok, charge_args}

-- How many envelopes a log says were submitted.
abbrev pub submits : List ChainCall → ℕ
submits [] = 0
submits (submit args ∷ calls) = suc (submits calls)
submits (_ ∷ calls) = submits calls

-- The signed entry that goes into the invocation: none where the request has no authorization;
-- else that of its authorization, which is ready, decrypts, and is not past its last ledger.
abbrev pub IsAuthorized : PipelineDeps → World → Option String → Option String → Type 0
IsAuthorized deps w none entry = entry ≡ none
IsAuthorized deps w (some id) entry =
    (authorization : ChargeAuthorization) × (find_where (is_authorization id) w.authorizations
      ≡ some authorization)
    × (authorization.status ≡ ready)
    × (entry ≢ none)
    × ((ciphertext key : String)
        → authorization.signed_entry_ciphertext ≡ some ciphertext
        → truthy deps.authorization_encryption_key ≡ some key
        → deps.decrypt_charge_authorization ciphertext key ≡ entry)
    × ((latest : ℕ)
        → deps.gateway.get_latest_ledger_sequence ≡ some (ledger_sequence latest)
        → latest < authorization.signature_expiration_ledger)

-- The simulated receipt is the charge that the row asks for, on the merchant's own records.
pub record Matches (row : ChargeRequest) (context : ChargeContext) (receipt : PaymentReceipt)
    : Type 0 where
  pub merchant : receipt.merchant ≡ context.merchant_wallet_address
  pub asset : receipt.asset ≡ context.expected_asset_address
  pub amount : receipt.amount ≡ row.amount
  pub charge_id : receipt.charge_id ≡ row.charge_id
  pub mandate_id : receipt.mandate_id ≡ row.mandate_id
  pub invoice_hash : receipt.invoice_hash ≡ row.invoice_hash

pub verification_ok-Matches :
    (row : ChargeRequest) (context : ChargeContext) (receipt : PaymentReceipt)
    → verification_ok row context receipt ≡ true
    → Matches row context receipt
verification_ok-Matches row context receipt ok = record {
  merchant = ground (arith, eq_iff receipt.merchant context.merchant_wallet_address);
  asset = ground (arith, eq_iff receipt.asset context.expected_asset_address);
  amount = ground arith;
  charge_id = ground (arith, eq_iff receipt.charge_id row.charge_id);
  mandate_id = ground (arith, eq_iff receipt.mandate_id row.mandate_id);
  invoice_hash = ground (arith, eq_iff receipt.invoice_hash row.invoice_hash);
}

-- The grounds on which a run submits: at the world `w`, the chain's mandate and the merchant's
-- records agree, and the simulated receipt is the charge that the row asks for.
pub record Checked (deps : PipelineDeps) (row : ChargeRequest) (n : ℕ) (w : World)
    (result : Option ChargeSubmitResult) : Type 0 where
  pub mandate : Mandate
  pub read : deps.gateway.get_mandate row.mandate_id ≡ mandate_found mandate
  pub context : ChargeContext
  pub resolved : resolve_charge_context row.merchant_id row.mandate_id w ≡ some context
  pub merchant_agrees : context.merchant_wallet_address ≡ mandate.merchant
  pub entry : Option String
  pub authorized : IsAuthorized deps w row.authorization_id entry
  pub receipt : PaymentReceipt
  pub simulated :
      deps.gateway.prepare_charge (charge_args deps row n entry)
      ≡ prepared (accepted receipt) result
  pub verified : Matches row context receipt

-- The rows of a run for the key `id` that began with the rows `base`: keys are unique, the row of
-- the key is `current`, and every other row is as at the beginning.
pub record Holds (id : String) (base rows : List ChargeRequest) (current : ChargeRequest)
    : Type 0 where
  pub unique : HasUniqueIds rows
  pub found : find_where (is_charge id) rows ≡ some current
  pub others :
      (other : String)
      → other ≢ id
      → find_where (is_charge other) rows ≡ find_where (is_charge other) base

is_at-other :
    (id other : String) (from : ChargeRequestStatus)
    → other ≢ id
    → (row : ChargeRequest) → is_charge other row ≡ true
    → is_at id from row ≡ false
is_at-other id other from ne row h = ground (arith, eq_iff row.id other, eq_iff row.id id)

pub is_charge-other :
    (id other : String)
    → other ≢ id
    → (row : ChargeRequest) → is_charge other row ≡ true
    → is_charge id row ≡ false
is_charge-other id other ne row h = ground (arith, eq_iff row.id other, eq_iff row.id id)

module _ (id : String) (base rows : List ChargeRequest) (current : ChargeRequest)
    (h : Holds id base rows current) where
  pub found_key : is_charge id current ≡ true
  found_key = found_passes (is_charge id) rows current h.found

module _ (id : String) (base : List ChargeRequest) (w : World) (current : ChargeRequest)
    (h : Holds id base w.charge_requests current) (from to : ChargeRequestStatus)
    (patch : ChargePatch) (at : current.status ≡ from) (legal : is_legal from to ≡ true) where
  at_status : eq_status current.status from ≡ true
  at_status = (eq_status_iff current.status from).1 at

  -- A legal transition of the row is made,
  pub transition_runs : transition id from to patch w ≡ (returned tt, move_rows id from to patch w)
  transition_runs =
      transition_lem id from to patch w current h.unique h.found ∙ rw (legal, at_status)

  -- and what was known holds of the row in its new state.
  pub move_rows-Holds :
      Holds id base (move_rows id from to patch w).charge_requests (moved w.clock to patch current)
  move_rows-Holds = record {
    unique =
        update-HasUniqueIds (is_at id from) (moved w.clock to patch) (λ row. refl) w.charge_requests
          h.unique;
    found =
        find-update (is_at id from) (moved w.clock to patch) (λ row. refl) id w.charge_requests
          current h.found
        ∙ ground (arith, at_status, found_key id base w.charge_requests current h);
    others = λ other ne.
        find-update_ne (is_at id from) (moved w.clock to patch) (λ row. refl) other
          w.charge_requests (is_at-other id other from ne)
        ∙ h.others other ne;
  }
