-- ===== src/Relayer/Pipeline/Authorizing.antt =====
-- apps/relayer/src/pipeline.ts: a run goes on to the simulation only with an authorization that is
-- ready, decrypts and has not expired, where its row names one.
use stellar_journey.Base.{
  ℕ, ◌<◌, ◌≡◌, ◌≢◌, refl, sym, ◌∙◌, inl, inr, String, Bool, true, false, Option, none, some, List,
  arith, truthy, leb, find_where, Bool-cases, Option-cases, some-eq-some,
}
use mathlib.Core.Path.{ap₂}
use stellar_journey.Store.{
  ChargeRequest, ChargeAuthorization, World, read_ledger, AuthorizationStatus, ready, log_call,
  is_authorization,
}
use stellar_journey.Api.ChargeStatus.{processing}
use stellar_journey.Client.Mandate.{Mandate}
use stellar_journey.Relayer.Gateway.{LedgerRead, ledger_sequence, ledger_unavailable}
use stellar_journey.Relayer.Context.{ChargeContext}
use stellar_journey.Relayer.Pipeline.Outcome.{PipelineDeps}
use stellar_journey.Relayer.Pipeline.Authorize.{
  expire, usable_parts, is_ready, after_decryption, check_expiry, after_ledger_read,
  read_ledger_if_offered, authorize, load_authorization,
}
use stellar_journey.Relayer.Pipeline.State.{IsAuthorized}
use stellar_journey.Relayer.Pipeline.Ends.{at_processing, Ends, Working}
use stellar_journey.Relayer.Pipeline.Failing.{fail-Ends, Interrupted-Ends}
use stellar_journey.Relayer.Pipeline.Settling.{update_authorization-cases}
use stellar_journey.Relayer.Pipeline.Preparing.{
  Before, Agreed, log_call-Before, prepare_charge-Ends,
}

module _ (deps : PipelineDeps) (row : ChargeRequest) (n : ℕ) (base : World) where
  -- The row's authorization, as the database and the key show it.
  record Signed (authorization : ChargeAuthorization) (entry : Option String) : Type 0 where
    id : String
    named : row.authorization_id ≡ some id
    found : find_where (is_authorization id) base.authorizations ≡ some authorization
    is_usable : authorization.status ≡ ready
    ciphertext : String
    key : String
    has_ciphertext : authorization.signed_entry_ciphertext ≡ some ciphertext
    has_key : truthy deps.authorization_encryption_key ≡ some key
    decrypts : deps.decrypt_charge_authorization ciphertext key ≡ entry

  abbrev NotExpired : ChargeAuthorization → Type 0
  NotExpired authorization =
      (latest : ℕ)
      → deps.gateway.get_latest_ledger_sequence ≡ some (ledger_sequence latest)
      → latest < authorization.signature_expiration_ledger

  Signed-IsAuthorized :
      (authorization : ChargeAuthorization) (entry : String)
      → Signed authorization (some entry)
      → NotExpired authorization
      → IsAuthorized deps base row.authorization_id (some entry)
  Signed-IsAuthorized authorization entry s fresh =
      rw s.named (authorization, s.found, s.is_usable, some-ne-none, decrypts_any, fresh)
    where
      some-ne-none : some entry ≢ none
      some-ne-none = cc

      decrypts_any :
          (ciphertext key : String)
          → authorization.signed_entry_ciphertext ≡ some ciphertext
          → truthy deps.authorization_encryption_key ≡ some key
          → deps.decrypt_charge_authorization ciphertext key ≡ some entry
      decrypts_any ciphertext key has_ciphertext has_key =
          ap₂ deps.decrypt_charge_authorization
            (some-eq-some (sym has_ciphertext ∙ s.has_ciphertext))
            (some-eq-some (sym has_key ∙ s.has_key))
          ∙ s.decrypts

  after_decryption-Ends :
      (mandate : Mandate) (context : ChargeContext) (authorization : ChargeAuthorization)
      (entry : Option String) (w : World)
      → Before deps row n base w
      → Agreed deps row n base mandate context
      → Signed authorization entry
      → NotExpired authorization
      → Ends deps row n base (after_decryption deps row n mandate context entry w)
  unfolding after_decryption
  after_decryption-Ends mandate context authorization none w b agreed s fresh =
      fail-Ends deps row n base processing _ w at_processing b.working
  after_decryption-Ends mandate context authorization (some entry) w b agreed s fresh =
      prepare_charge-Ends deps row n base mandate context (some entry) w b agreed
        (Signed-IsAuthorized authorization entry s fresh)

  with_authorizations :
      (rows : List ChargeAuthorization) (w : World)
      → Working deps row n base processing w
      → Working deps row n base processing (record w { authorizations = rows })
  with_authorizations rows w k = record {
    current = k.current;
    holds = k.holds;
    status = k.status;
    quiet = record {
      payments = k.quiet.payments;
      deliveries = k.quiet.deliveries;
      clock = k.quiet.clock;
      grounds = k.quiet.grounds;
    };
  }

  check_expiry-Ends :
      (mandate : Mandate) (context : ChargeContext) (authorization : ChargeAuthorization)
      (entry : Option String) (is_expired : Bool) (w : World)
      → Before deps row n base w
      → Agreed deps row n base mandate context
      → Signed authorization entry
      → (is_expired ≡ false → NotExpired authorization)
      → Ends deps row n base
          (check_expiry deps row n mandate context authorization entry is_expired w)
  unfolding check_expiry
  check_expiry-Ends mandate context authorization entry false w b agreed s fresh =
      after_decryption-Ends mandate context authorization entry w b agreed s (fresh refl)
  check_expiry-Ends mandate context authorization entry true w b agreed s fresh =
      elim (update_authorization-cases authorization.id expire w) [
        | inl (rows, done) ↦ rw done (
            fail-Ends deps row n base processing _ _ at_processing
              (with_authorizations rows w b.working))
        | inr (e, missing) ↦
            rw missing (Interrupted-Ends deps row n base processing w at_processing b.working)
      ]

  after_ledger_read-Ends :
      (mandate : Mandate) (context : ChargeContext) (authorization : ChargeAuthorization)
      (entry : Option String) (answer : LedgerRead) (w : World)
      → Before deps row n base w
      → Agreed deps row n base mandate context
      → Signed authorization entry
      → deps.gateway.get_latest_ledger_sequence ≡ some answer
      → Ends deps row n base
          (after_ledger_read deps row n mandate context authorization entry answer w)
  unfolding after_ledger_read
  after_ledger_read-Ends mandate context authorization entry ledger_unavailable w b agreed s read =
      fail-Ends deps row n base processing _ w at_processing b.working
  after_ledger_read-Ends mandate context authorization entry (ledger_sequence latest) w b agreed s
        read =
      check_expiry-Ends mandate context authorization entry
        (leb authorization.signature_expiration_ledger latest) w b agreed s
        (λ unexpired other e. ground (arith, some-eq-some (sym e ∙ read)))

  read_ledger-Ends :
      (mandate : Mandate) (context : ChargeContext) (authorization : ChargeAuthorization)
      (entry : Option String) (answer : Option LedgerRead) (w : World)
      → Before deps row n base w
      → Agreed deps row n base mandate context
      → Signed authorization entry
      → deps.gateway.get_latest_ledger_sequence ≡ answer
      → Ends deps row n base
          (read_ledger_if_offered deps row n mandate context authorization entry answer w)
  unfolding read_ledger_if_offered
  read_ledger-Ends mandate context authorization entry none w b agreed s read =
      after_decryption-Ends mandate context authorization entry w b agreed s
        (λ latest e. cc (sym e ∙ read))
  read_ledger-Ends mandate context authorization entry (some answer) w b agreed s read =
      after_ledger_read-Ends mandate context authorization entry answer (log_call read_ledger w)
        (log_call-Before deps row n base read_ledger w b refl) agreed s read

  is_ready→ready : (status : AuthorizationStatus) → is_ready status ≡ true → status ≡ ready
  is_ready→ready ready e = refl
  is_ready→ready _ e = cc e

  -- Without a usable authorization the run ends here.
  authorize_missing :
      (mandate : Mandate) (context : ChargeContext) (w : World)
      → Before deps row n base w
      → Ends deps row n base (authorize deps row n mandate context none w)
  unfolding authorize
  authorize_missing mandate context w b =
      fail-Ends deps row n base processing _ w at_processing b.working

  authorize-Ends :
      (mandate : Mandate) (context : ChargeContext) (authorization : ChargeAuthorization)
      (ciphertext key : Option String) (w : World)
      → Before deps row n base w
      → Agreed deps row n base mandate context
      → (id : String) → row.authorization_id ≡ some id
      → find_where (is_authorization id) base.authorizations ≡ some authorization
      → authorization.signed_entry_ciphertext ≡ ciphertext
      → truthy deps.authorization_encryption_key ≡ key
      → Ends deps row n base
          (authorize deps row n mandate context (usable_parts authorization ciphertext key) w)
  unfolding authorize
  authorize-Ends mandate context authorization (some ciphertext) (some key) w b agreed id named
        found has_ciphertext has_key =
      elim (Bool-cases (is_ready authorization.status)) [
        | inr unusable ↦ rw unusable (authorize_missing mandate context w b)
        | inl usable_now ↦ rw usable_now (
            read_ledger-Ends mandate context authorization
              (deps.decrypt_charge_authorization ciphertext key)
              deps.gateway.get_latest_ledger_sequence w b agreed
              (record {
                id = id;
                named = named;
                found = found;
                is_usable = is_ready→ready authorization.status usable_now;
                ciphertext = ciphertext;
                key = key;
                has_ciphertext = has_ciphertext;
                has_key = has_key;
                decrypts = refl;
              })
              refl)
      ]
  authorize-Ends mandate context authorization none key w b agreed id named found has_ciphertext
        has_key =
      authorize_missing mandate context w b
  authorize-Ends mandate context authorization (some ciphertext) none w b agreed id named found
        has_ciphertext has_key =
      authorize_missing mandate context w b

  pub load_authorization-Ends :
      (mandate : Mandate) (context : ChargeContext) (id : Option String) (w : World)
      → Before deps row n base w
      → Agreed deps row n base mandate context
      → row.authorization_id ≡ id
      → Ends deps row n base (load_authorization deps row n mandate context id w)
  unfolding load_authorization
  load_authorization-Ends mandate context none w b agreed named =
      prepare_charge-Ends deps row n base mandate context none w b agreed (rw named refl)
  load_authorization-Ends mandate context (some id) w b agreed named =
      elim (Option-cases (find_where (is_authorization id) w.authorizations)) [
        | inl missing ↦ rw missing (authorize_missing mandate context w b)
        | inr (authorization, found) ↦ rw found (
            authorize-Ends mandate context authorization authorization.signed_entry_ciphertext
              (truthy deps.authorization_encryption_key) w b agreed id named
              (rw b.authorizations at found) refl refl)
      ]
