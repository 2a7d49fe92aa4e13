-- ===== src/Api/Auth/Hook/Allowed.antt =====
-- Which requests pass the hook of apps/api/src/auth/plugin.ts.
use text.Mathlib.Text.{starts_with}
use stellar_journey.Base.{
  ℕ, ◌<◌, ◌≡◌, ◌∙◌, refl, sym, ap, subst, str_eq, String, Bool, true, false, Option, none, some,
  List, arith, truthy, all_where, find_where, Bool-cases, inl, inr,
}
use stellar_journey.Base.Effect.{returned, and_then, pure}
use stellar_journey.Base.Effect.Inversion.{and_then_inv, or_throw_inv}
use stellar_journey.Store.{database_error}
use stellar_journey.Api.Auth.Tables.{Account, ApiKey, Session, AuthStore, AuthCrypto, is_account}
use stellar_journey.Api.Auth.Scopes.{has_scope, require_api_key_scopes_lem}
use stellar_journey.Api.Auth.ApiKeys.{
  AuthenticatedMerchant, match_key, malformed_key, check_match, check_key, accept_key,
  is_active_key, is_active_account, authenticate_api_key, use_is_stale, touch_if,
}
use stellar_journey.Api.Auth.Sessions.{
  session_prefix, match_session, malformed_token, is_set, accept_session, check_session,
  merchant_of, authenticate_merchant_session, touch_session,
}
use stellar_journey.Api.Auth.Hook.{
  MerchantCredential, api_key, session, MerchantContext, bearer, missing_api_key, session_context,
  key_context, authenticate_session, authenticate_key, authenticate_raw, authenticate_header,
  authenticate,
}

truthy-some : (o : Option String) (s : String) → truthy o ≡ some s → o ≡ some s
truthy-some none s h = absurd cc
truthy-some (some t) s h = elim (Bool-cases (str_eq t "")) [
  | inl empty ↦ absurd (cc (rw empty at h))
  | inr full ↦ rw full at h
]

module _ (crypto : AuthCrypto) (required : List String) where
  -- A credential that lets a request pass, in the store of the request.
  pub data Allows (w : AuthStore) (raw : String) (merchant : Account)
      : MerchantCredential → Type 0 where
    by_session :
        (row : Session)
        → match_session crypto raw w ≡ some row
        → is_set row.revoked_at ≡ false
        → w.clock < row.expires_at
        → merchant_of crypto row w ≡ some merchant
        → is_active_account merchant.status ≡ true
        → Allows w raw merchant (session row)
    by_key :
        (row : ApiKey)
        → match_key crypto raw w ≡ some row
        → is_active_key row.status ≡ true
        → find_where (is_account row.merchant_id) w.accounts ≡ some merchant
        → is_active_account merchant.status ≡ true
        → all_where (has_scope row.scopes) required ≡ true
        → Allows w raw merchant (api_key row)

  touched :
      (stale : Bool) (id : String) (now : ℕ) (k : Session × Option Account) (w w' : AuthStore)
      (found : Session × Option Account)
      → and_then (λ _. pure k) (touch_session crypto stale id now w) ≡ (returned found, w')
      → found ≡ k
  touched true id now k w w' found h = cc h
  touched false id now k w w' found h = cc h

  accept_session_inv :
      (now : ℕ) (row : Session) (o : Option Account) (w w' : AuthStore)
      (found : Session × Option Account)
      → accept_session crypto false now row o w ≡ (returned found, w')
      → (m : Account) × (o ≡ some m) × (found ≡ (row, some m)) × (is_active_account m.status ≡ true)
  accept_session_inv now row none w w' found h = absurd cc
  accept_session_inv now row (some m) w w' found h =
      elim (Bool-cases (is_active_account m.status)) [
        | inl on ↦ (
          m,
          refl,
          touched (use_is_stale row.last_used_at now) row.id now (row, some m) w w' found
              (rw on at h),
          on,
        )
        | inr off ↦ absurd (cc (rw off at h))
      ]

  check_session_inv :
      (o : Option Session) (w w' : AuthStore) (found : Session × Option Account)
      → check_session crypto false w.clock o w ≡ (returned found, w')
      → (row : Session) × (o ≡ some row)
        × (is_set row.revoked_at ≡ false)
        × (w.clock < row.expires_at)
        × (accept_session crypto false w.clock row (merchant_of crypto row w) w
            ≡ (returned found, w'))
  check_session_inv none w w' found h = absurd cc
  check_session_inv (some row) w w' found h = (row, refl, ground arith, ground arith, ground arith)

  well_formed :
      (raw : String) (w w' : AuthStore) (found : Session × Option Account)
      → authenticate_merchant_session crypto false w.clock raw w ≡ (returned found, w')
      → check_session crypto false w.clock (match_session crypto raw w) w ≡ (returned found, w')
  unfolding authenticate_merchant_session
  well_formed raw w w' found h = elim (Bool-cases (malformed_token crypto raw)) [
    | inl bad ↦ absurd (cc (rw bad at h))
    | inr good ↦ rw good at h
  ]

  -- The context that the hook leaves.
  abbrev Left : AuthStore → String → MerchantContext → Type 0
  Left w raw context = Allows w raw context.merchant context.credential

  session_context_inv :
      (row : Session) (m : Account) (found : Session × Option Account) (w w' : AuthStore)
      (context : MerchantContext)
      → found ≡ (row, some m)
      → session_context found w ≡ (returned context, w')
      → record { merchant = m; credential = session row } ≡ context
  session_context_inv row m found w w' context e h = cc (rw e at h)

  session_allows :
      (raw : String) (w w' : AuthStore) (context : MerchantContext)
      → authenticate_session crypto required raw w ≡ (returned context, w')
      → Left w raw context
  session_allows raw w w' context h =
      let (found, w1, ran, end) =
        and_then_inv session_context (authenticate_merchant_session crypto false w.clock raw w) h in
      let (row, matched, live, unexpired, accepted) =
        check_session_inv (match_session crypto raw w) w w1 found
          (well_formed raw w w1 found ran) in
      let (m, owner, is, on) =
        accept_session_inv w.clock row (merchant_of crypto row w) w w1 found accepted in
      subst (Left w raw) (session_context_inv row m found w1 w' context is end)
        (by_session row matched live unexpired owner on)

  touched_key :
      (stale : Bool) (id : String) (k : AuthenticatedMerchant) (w w' : AuthStore)
      (found : AuthenticatedMerchant)
      → and_then (λ _. pure k) (touch_if stale id w) ≡ (returned found, w')
      → k ≡ found
  touched_key true id k w w' found h = cc h
  touched_key false id k w w' found h = cc h

  accept_key_inv :
      (row : ApiKey) (m : Account) (w w' : AuthStore) (found : AuthenticatedMerchant)
      → accept_key row m w ≡ (returned found, w')
      → (is_active_account m.status ≡ true) × (record { merchant = m; api_key = row } ≡ found)
  accept_key_inv row m w w' found h = elim (Bool-cases (is_active_account m.status)) [
    | inl on ↦ (
      on,
      touched_key (use_is_stale row.last_used_at w.clock) row.id
          (record { merchant = m; api_key = row }) w w' found (rw on at h),
    )
    | inr off ↦ absurd (cc (rw off at h))
  ]

  check_key_inv :
      (row : ApiKey) (w w' : AuthStore) (found : AuthenticatedMerchant)
      → check_key row w ≡ (returned found, w')
      → (m : Account) × (find_where (is_account row.merchant_id) w.accounts ≡ some m)
        × (is_active_key row.status ≡ true)
        × (is_active_account m.status ≡ true)
        × (record { merchant = m; api_key = row } ≡ found)
  check_key_inv row w w' found h = elim (Bool-cases (is_active_key row.status)) [
    | inl on ↦
        let (m, owner, accepting) =
          or_throw_inv (accept_key row) (find_where (is_account row.merchant_id) w.accounts)
            (database_error "P2003") w (rw on at h) in
        let (enabled, is) = accept_key_inv row m w w' found accepting in (m, owner, on, enabled, is)
    | inr off ↦ absurd (cc (rw off at h))
  ]

  check_match_inv :
      (o : Option ApiKey) (w w' : AuthStore) (found : AuthenticatedMerchant)
      → check_match crypto o w ≡ (returned found, w')
      → (row : ApiKey) × (o ≡ some row) × (check_key row w ≡ (returned found, w'))
  check_match_inv none w w' found h = absurd cc
  check_match_inv (some row) w w' found h = (row, refl, h)

  well_formed_key :
      (raw : String) (w w' : AuthStore) (found : AuthenticatedMerchant)
      → authenticate_api_key crypto raw w ≡ (returned found, w')
      → check_match crypto (match_key crypto raw w) w ≡ (returned found, w')
  unfolding authenticate_api_key
  well_formed_key raw w w' found h = elim (Bool-cases (malformed_key raw)) [
    | inl bad ↦ absurd (cc (rw bad at h))
    | inr good ↦ rw good at h
  ]

  key_context_inv :
      (found : AuthenticatedMerchant) (w w' : AuthStore) (context : MerchantContext)
      → key_context required found w ≡ (returned context, w')
      → (all_where (has_scope found.api_key.scopes) required ≡ true)
        × (record { merchant = found.merchant; credential = api_key found.api_key } ≡ context)
  key_context_inv found w w' context h =
      elim (Bool-cases (all_where (has_scope found.api_key.scopes) required)) [
        | inl all ↦ (all, cc (rw (require_api_key_scopes_lem found.api_key required w, all) at h))
        | inr some_left ↦
            absurd (cc (rw (require_api_key_scopes_lem found.api_key required w, some_left) at h))
      ]

  key_allows :
      (raw : String) (w w' : AuthStore) (context : MerchantContext)
      → authenticate_key crypto required raw w ≡ (returned context, w')
      → Left w raw context
  key_allows raw w w' context h =
      let (found, w1, ran, end) =
        and_then_inv (key_context required) (authenticate_api_key crypto raw w) h in
      let (row, matched, checking) =
        check_match_inv (match_key crypto raw w) w w1 found (well_formed_key raw w w1 found ran) in
      let (m, owner, unrevoked, enabled, is) = check_key_inv row w w1 found checking in
      let (scoped, context_is) = key_context_inv found w1 w' context end in
      subst (Left w raw)
        (ap (λ f. record { merchant = f.merchant; credential = api_key f.api_key }) is ∙ context_is)
        (by_key row matched unrevoked owner enabled
          (subst (λ f. all_where (has_scope f.api_key.scopes) required ≡ true) (sym is) scoped))

  raw_allows :
      (raw : String) (w w' : AuthStore) (context : MerchantContext)
      → authenticate_raw crypto required raw w ≡ (returned context, w')
      → Left w raw context
  raw_allows raw w w' context h = elim (Bool-cases (starts_with raw session_prefix)) [
    | inl by ↦ session_allows raw w w' context (rw by at h)
    | inr other ↦ key_allows raw w w' context (rw other at h)
  ]

  -- A request that passes the hook carries a bearer credential that is the raw form of a session
  -- of the store that is neither revoked nor over, or of an active API key that has every
  -- required scope; and its merchant is the owner of that row and is not disabled.
  pub authenticate-Allows :
      (header : Option String) (w w' : AuthStore) (context : MerchantContext)
      → authenticate crypto required header w ≡ (returned context, w')
      → (value : String) × (raw : String) × (header ≡ some value)
        × (bearer value ≡ some raw)
        × Allows w raw context.merchant context.credential
  unfolding authenticate
  authenticate-Allows header w w' context h =
      let (value, given, h1) =
        or_throw_inv (authenticate_header crypto required) (truthy header) missing_api_key w h in
      let (raw, matches, h2) =
        or_throw_inv (authenticate_raw crypto required) (bearer value) missing_api_key w h1 in
      (value, raw, truthy-some header value given, matches, raw_allows raw w w' context h2)
