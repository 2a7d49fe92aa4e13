-- ===== src/Api/Auth/Accounts/Ended.antt =====
-- What a sign-out (apps/api/src/routes/merchants.ts) leaves of a credential.
use text.Mathlib.Text.{starts_with}
use stellar_journey.Base.{
  ℕ, ◌≡◌, ◌∙◌, refl, sym, ap, subst, inl, inr, str_eq, eq_refl, eq_iff, String, Bool, true, false,
  ◌||◌, ◌&&◌, Option, none, some, List, arith, Bool-cases, find_where, update_where,
  find_where-update, find_where-filter_where, leb,
}
use stellar_journey.Base.Effect.{returned, thrown, and_then, pure}
use stellar_journey.Base.Effect.Inversion.{and_then_inv, or_throw_inv}
use stellar_journey.Store.{Fault, api_error}
use stellar_journey.Api.Auth.Tables.{Account, Session, AuthStore, AuthCrypto}
use stellar_journey.Api.Auth.ApiKeys.{is_active_account, use_is_stale}
use stellar_journey.Api.Auth.Sessions.{
  session_prefix, token_prefix_of, is_session, is_set, malformed_token, match_session, used_session,
  touch_session, accept_session, merchant_of, check_session, authenticate_merchant_session,
  is_live_session, revoke_session, revoke_merchant_session,
}
use stellar_journey.Api.Auth.Hook.{MerchantContext, bearer, missing_api_key, authenticate}
use stellar_journey.Api.Auth.Accounts.{or_empty, revoke_found, log_out_raw, log_out}

abbrev session_over : Fault
session_over = api_error 401 "MERCHANT_SESSION_EXPIRED"

module _ (crypto : AuthCrypto) (raw : String) where
  -- The row that a raw token matches.
  abbrev matches : Session → Bool
  matches r =
      str_eq r.token_prefix (token_prefix_of raw) && str_eq r.token_hash (crypto.session_hash raw)

  match_lem : (v : AuthStore) → match_session crypto raw v ≡ find_where matches v.sessions
  match_lem v =
      find_where-filter_where (λ r. str_eq r.token_hash (crypto.session_hash raw))
        (λ r. str_eq r.token_prefix (token_prefix_of raw)) v.sessions

  -- The token matches a row of that id, which is not revoked.
  record Live (v : AuthStore) (id : String) : Type 0 where
    pub row : Session
    pub found : match_session crypto raw v ≡ some row
    pub same : row.id ≡ id
    pub unrevoked : is_set row.revoked_at ≡ false

  abbrev touched : ℕ → Session → AuthStore → AuthStore
  touched now row w = record w {
    sessions = update_where (is_session row.id) (used_session crypto now) w.sessions;
  }

  touch_lem :
      (stale : Bool) (now : ℕ) (row : Session) (k : Session × Option Account) (w v : AuthStore)
      (found : Session × Option Account)
      → match_session crypto raw w ≡ some row
      → is_set row.revoked_at ≡ false
      → and_then (λ _. pure k) (touch_session crypto stale row.id now w) ≡ (returned found, v)
      → (found ≡ k) × Live v row.id
  touch_lem false now row k w v found is live h =
      let same : w ≡ v = cc h in
      (
        cc h,
        subst (λ u. Live u row.id) same
            (record { row = row; found = is; same = refl; unrevoked = live }),
      )
  touch_lem true now row k w v found is live h =
      let same : touched now row w ≡ v = cc h in
      (
        cc h,
        subst (λ u. Live u row.id) same
            (record {
              row = used_session crypto now row;
              found =
                  match_lem (touched now row w)
                  ∙ find_where-update (is_session row.id) matches (used_session crypto now)
                      (λ r. refl) w.sessions row (sym (match_lem w) ∙ is)
                  ∙ rw (eq_refl row.id) refl;
              same = refl;
              unrevoked = live;
            }),
      )

  accept_Live :
      (now : ℕ) (row : Session) (account : Option Account) (w v : AuthStore)
      (found : Session × Option Account)
      → match_session crypto raw w ≡ some row
      → is_set row.revoked_at ≡ false
      → accept_session crypto true now row account w ≡ (returned found, v)
      → (found.0 ≡ row) × Live v row.id
  accept_Live now row none w v found is live h =
      let same : w ≡ v = cc h in
      (
        cc h,
        subst (λ u. Live u row.id) same
            (record { row = row; found = is; same = refl; unrevoked = live }),
      )
  accept_Live now row (some account) w v found is live h =
      elim (Bool-cases (is_active_account account.status)) [
        | inl on ↦
            (let t =
                touch_lem (use_is_stale row.last_used_at now) now row (row, some account) w v found
                  is live (rw on at h) in
              (ap (λ f. f.0) t.0, t.1))
        | inr off ↦ absurd (cc (rw off at h))
      ]

  check_Live :
      (now : ℕ) (o : Option Session) (w v : AuthStore) (found : Session × Option Account)
      → match_session crypto raw w ≡ o
      → check_session crypto true now o w ≡ (returned found, v)
      → Live v found.0.id
  check_Live now none w v found is h = absurd cc
  check_Live now (some row) w v found is h =
      elim (Bool-cases (is_set row.revoked_at || leb row.expires_at now)) [
        | inl over ↦ absurd (cc (rw over at h))
        | inr live ↦
            (let a =
                accept_Live now row (merchant_of crypto row w) w v found is (ground arith)
                  (rw live at h) in
              subst (λ r. Live v r.id) (sym a.0) a.1)
      ]

  session_Live :
      (now : ℕ) (w v : AuthStore) (found : Session × Option Account)
      → authenticate_merchant_session crypto true now raw w ≡ (returned found, v)
      → (malformed_token crypto raw ≡ false) × Live v found.0.id
  unfolding authenticate_merchant_session
  session_Live now w v found h = elim (Bool-cases (malformed_token crypto raw)) [
    | inl bad ↦ absurd (cc (rw bad at h))
    | inr good ↦ (good, check_Live now (match_session crypto raw w) w v found refl (rw good at h))
  ]

  abbrev revoked : ℕ → String → AuthStore → AuthStore
  revoked now id v = record v {
    sessions = update_where (is_live_session id) (revoke_session now) v.sessions;
  }

  -- Once it is revoked, the token matches a revoked row.
  revoked_there :
      (now : ℕ) (id : String) (v : AuthStore)
      → Live v id
      → (row : Session) × (match_session crypto raw (revoked now id v) ≡ some row)
        × (is_set row.revoked_at ≡ true)
  revoked_there now id v l = (
    revoke_session now l.row,
    match_lem (revoked now id v)
        ∙ find_where-update (is_live_session id) matches (revoke_session now) (λ r. refl) v.sessions
            l.row (sym (match_lem v) ∙ l.found)
        ∙ rw (l.same, eq_refl id, l.unrevoked) refl,
    refl,
  )

  session_refused :
      (now : ℕ) (w : AuthStore) (row : Session)
      → malformed_token crypto raw ≡ false
      → match_session crypto raw w ≡ some row
      → is_set row.revoked_at ≡ true
      → authenticate_merchant_session crypto false now raw w ≡ (thrown session_over, w)
  unfolding authenticate_merchant_session
  session_refused now w row good found over = rw (good, found, over) refl

  prefixed : malformed_token crypto raw ≡ false → starts_with raw session_prefix ≡ true
  prefixed good = ground arith

  hook_refused :
      (required : List String) (header : String) (w : AuthStore)
      → bearer header ≡ some raw
      → str_eq header "" ≡ false
      → starts_with raw session_prefix ≡ true
      → authenticate_merchant_session crypto false w.clock raw w ≡ (thrown session_over, w)
      → (authenticate crypto required (some header) w).0 ≡ thrown session_over
  unfolding authenticate
  hook_refused required header w given some_header prefix refused =
      rw (some_header, given, prefix, refused) refl

module _ (crypto : AuthCrypto) where
  no_bearer : bearer "" ≡ none
  unfolding bearer stellar_journey.Api.Auth.Hook.after_word
  no_bearer = refl

  some_header :
      (header : Option String) (raw : String)
      → bearer (or_empty header) ≡ some raw
      → (value : String) × (header ≡ some value)
        × (bearer value ≡ some raw)
        × (str_eq value "" ≡ false)
  some_header none raw h = absurd (cc (h, no_bearer))
  some_header (some value) raw h = elim (Bool-cases (str_eq value "")) [
    | inl empty ↦ absurd (cc (h, no_bearer, ap bearer ((eq_iff value "").0 empty)))
    | inr full ↦ (value, refl, h, full)
  ]

  -- After a sign-out that returns, the hook refuses the same header as of a session that is over,
  -- whatever scopes it asks for.
  pub log_out_ends :
      (header : Option String) (w w' : AuthStore)
      → log_out crypto header w ≡ (returned tt, w')
      → (required : List String) → (authenticate crypto required header w').0 ≡ thrown session_over
  unfolding log_out revoke_merchant_session
  log_out_ends header w w' h required =
      let (raw, given, h1) =
        or_throw_inv (log_out_raw crypto) (bearer (or_empty header)) missing_api_key w h in
      let (found, v, authenticated, h2) =
        and_then_inv (revoke_found crypto w.clock)
          (authenticate_merchant_session crypto true w.clock raw w) h1 in
      let (good, live) = session_Live crypto raw w.clock w v found authenticated in
      let same : revoked crypto raw w.clock found.0.id v ≡ w' = cc h2 in
      let (row, there, over) = revoked_there crypto raw w.clock found.0.id v live in
      let (value, is, bears, full) = some_header header raw given in
      let here : match_session crypto raw w' ≡ some row =
        subst (λ u. match_session crypto raw u ≡ some row) same there in
      subst (λ o. (authenticate crypto required o w').0 ≡ thrown session_over) (sym is)
        (hook_refused crypto raw required value w' bears full (prefixed crypto raw good)
          (session_refused crypto raw w'.clock w' row good here over))
