-- ===== src/Api/Auth/Accounts/Deleted.antt =====
-- What the deletion of a key (apps/api/src/routes/merchants.ts) leaves of it.
use stellar_journey.Base.{
  ◌≡◌, ◌∙◌, refl, sym, subst, inl, inr, eq_refl, String, Bool, true, false, not, ◌&&◌, some, arith,
  Bool-cases, find_where, update_where, count_where, find_where-update, find_where-filter_where,
  if◌then◌else◌, ◌==◌,
}
use stellar_journey.Base.Effect.{returned, thrown, throw_if}
use stellar_journey.Base.Effect.Inversion.{throw_if_inv}
use stellar_journey.Store.{Fault, api_error}
use stellar_journey.Api.Auth.Tables.{ApiKey, AuthStore, AuthCrypto}
use stellar_journey.Api.Auth.ApiKeys.{
  lookup_prefix, malformed_key, has_prefix, has_hash, is_active_key, revoke_key, match_key,
  authenticate_api_key,
}
use stellar_journey.Api.Auth.Hook.{MerchantContext}
use stellar_journey.Api.Auth.Accounts.{
  is_revocable, is_current, current_api_key, api_key_not_found, revoke_counted, delete_api_key,
}

module _ (crypto : AuthCrypto) where
  -- The key that a raw key matches.
  abbrev matches_key : String → ApiKey → Bool
  matches_key raw r = has_prefix (lookup_prefix raw) r && has_hash (crypto.hash_api_key raw) r

  match_key_lem :
      (raw : String) (v : AuthStore)
      → match_key crypto raw v ≡ find_where (matches_key raw) v.api_keys
  match_key_lem raw v =
      find_where-filter_where (has_hash (crypto.hash_api_key raw)) (has_prefix (lookup_prefix raw))
        v.api_keys

  key_refused :
      (raw : String) (w : AuthStore) (row : ApiKey)
      → malformed_key raw ≡ false
      → match_key crypto raw w ≡ some row
      → is_active_key row.status ≡ false
      → authenticate_api_key crypto raw w ≡ (thrown (api_error 401 "API_KEY_REVOKED"), w)
  unfolding authenticate_api_key
  key_refused raw w row good found off = rw (good, found, off) refl

  abbrev deleted : MerchantContext → String → AuthStore → AuthStore
  deleted context id w = record w {
    api_keys = update_where (is_revocable context.merchant.id id) (revoke_key w.clock) w.api_keys;
  }

  throw_if_end :
      (t : Bool) (e : Fault) (v w' : AuthStore)
      → throw_if t e v ≡ (returned tt, w')
      → (t ≡ false) × (w' ≡ v)
  throw_if_end true e v w' h = absurd cc
  throw_if_end false e v w' h = (refl, cc h)

  delete_inv :
      (context : MerchantContext) (id : String) (w w' : AuthStore)
      → delete_api_key context id w ≡ (returned tt, w')
      → (is_current id context.credential ≡ false)
        × (count_where (is_revocable context.merchant.id id) w.api_keys ≡ 1)
        × (w' ≡ deleted context id w)
  unfolding delete_api_key
  delete_inv context id w w' h =
      let (other, h1) =
        throw_if_inv (λ _. revoke_counted context id) (is_current id context.credential)
          current_api_key w h in
      let (one, is) =
        throw_if_end (not (count_where (is_revocable context.merchant.id id) w.api_keys == 1))
          api_key_not_found (deleted context id w) w' h1 in
      (other, ground arith, is)

  -- The key is still matched by its raw form, and is not active any more.
  deleted_there :
      (context : MerchantContext) (raw : String) (w : AuthStore) (row : ApiKey)
      → match_key crypto raw w ≡ some row
      → row.merchant_id ≡ context.merchant.id
      → (r : ApiKey) × (match_key crypto raw (deleted context row.id w) ≡ some r)
        × (is_active_key r.status ≡ false)
  deleted_there context raw w row found own = elim (Bool-cases (is_active_key row.status)) [
    | inl on ↦ (
      revoke_key w.clock row,
      there ∙ rw (eq_refl row.id, own, eq_refl context.merchant.id, on) refl,
      refl,
    )
    | inr off ↦ (row, there ∙ rw (eq_refl row.id, own, eq_refl context.merchant.id, off) refl, off)
  ]
    where
      there :
          match_key crypto raw (deleted context row.id w)
          ≡ some
              (if is_revocable context.merchant.id row.id row then revoke_key w.clock row else row)
      there =
          match_key_lem raw (deleted context row.id w)
          ∙ find_where-update (is_revocable context.merchant.id row.id) (matches_key raw)
              (revoke_key w.clock) (λ r. refl) w.api_keys row (sym (match_key_lem raw w) ∙ found)

  -- A deletion that returns, of the key that a well-formed raw key matches and the merchant of
  -- the request owns, was not requested with that key, and after it the raw key is refused as
  -- revoked.
  pub delete_api_key_ends :
      (context : MerchantContext) (raw : String) (w w' : AuthStore) (row : ApiKey)
      → malformed_key raw ≡ false
      → match_key crypto raw w ≡ some row
      → row.merchant_id ≡ context.merchant.id
      → delete_api_key context row.id w ≡ (returned tt, w')
      → (is_current row.id context.credential ≡ false)
        × (authenticate_api_key crypto raw w' ≡ (thrown (api_error 401 "API_KEY_REVOKED"), w'))
  delete_api_key_ends context raw w w' row good found own h =
      let (other, one, is) = delete_inv context row.id w w' h in
      let (r, there, off) = deleted_there context raw w row found own in
      (
        other,
        subst
            (λ u. authenticate_api_key crypto raw u ≡ (thrown (api_error 401 "API_KEY_REVOKED"), u))
            (sym is) (key_refused raw (deleted context row.id w) r good there off),
      )
