-- ===== src/Api/Auth/Rotation.antt =====
-- apps/api/src/auth/api-key.ts: what `rotateApiKey` leaves of the old key and the new.
use stellar_journey.Base.{
  ◌≡◌, ◌∙◌, sym, subst, refl, String, Bool, false, ◌&&◌, some, ◌∷◌, arith, eq_iff, eq_refl,
  find_where, count_where, update_where, find_where-update, find_where-filter_where,
  count_where-update, count_where_of_found, count_where-le,
}
use stellar_journey.Base.Effect.{returned, thrown}
use stellar_journey.Store.{api_error}
use stellar_journey.Api.Auth.Tables.{
  AccountStatus, Account, ApiKey, AuthStore, AuthCrypto, is_account, is_api_key,
}
use stellar_journey.Api.Auth.ApiKeys.{
  lookup_prefix, malformed_key, has_prefix, has_hash, new_api_key, revoke_key, is_key_of,
  create_key, match_key, authenticate_api_key, rotate_api_key,
}

module _ (crypto : AuthCrypto) (old new key_id : String) (w : AuthStore) (row : ApiKey)
    (account : Account) (old_shape : malformed_key old ≡ false)
    (new_shape : malformed_key new ≡ false) (matched : match_key crypto old w ≡ some row)
    (found : find_where (is_key_of row.merchant_id row.id) w.api_keys ≡ some row)
    (fresh : count_where (has_hash (crypto.hash_api_key new)) w.api_keys ≡ 0)
    (owned : find_where (is_account row.merchant_id) w.accounts ≡ some account)
    (enabled : account.status ≡ AccountStatus.active) where
  abbrev issued : ApiKey
  issued =
      new_api_key key_id row.merchant_id row.name row.scopes (lookup_prefix new)
        (crypto.hash_api_key new) w.clock

  abbrev rotated : AuthStore
  rotated = record w {
    api_keys = issued ∷ update_where (is_api_key row.id) (revoke_key w.clock) w.api_keys;
  }

  still_fresh :
      count_where
        (has_hash (crypto.hash_api_key new))
        (update_where (is_api_key row.id) (revoke_key w.clock) w.api_keys)
      ≡ 0
  still_fresh =
      count_where-update (is_api_key row.id) (has_hash (crypto.hash_api_key new))
        (revoke_key w.clock) (λ r. refl) w.api_keys
      ∙ fresh

  rotates :
      rotate_api_key crypto new key_id row.merchant_id row.id w
      ≡ (returned (record { api_key = issued; raw_api_key = new }), rotated)
  unfolding rotate_api_key create_key
  rotates = rw (found, still_fresh)

  -- The row that a raw key matches.
  abbrev matches : String → ApiKey → Bool
  matches raw r = has_prefix (lookup_prefix raw) r && has_hash (crypto.hash_api_key raw) r

  match_lem :
      (raw : String) (v : AuthStore) → match_key crypto raw v ≡ find_where (matches raw) v.api_keys
  match_lem raw v =
      find_where-filter_where (has_hash (crypto.hash_api_key raw)) (has_prefix (lookup_prefix raw))
        v.api_keys

  old_found : find_where (matches old) w.api_keys ≡ some row
  old_found = sym (match_lem old w) ∙ matched

  hashes_differ : matches old issued ≡ false
  hashes_differ = ground (
    arith,
    eq_iff (crypto.hash_api_key new) (crypto.hash_api_key old),
    λ (e : crypto.hash_api_key new ≡ crypto.hash_api_key old). differs e,
  )
    where
      differs : crypto.hash_api_key new ≡ crypto.hash_api_key old → ⊥
      differs e = omega (
        arith,
        count_where_of_found (matches old) w.api_keys row old_found,
        count_where-le (matches old) (has_hash (crypto.hash_api_key old)) (λ r h. ground arith)
            w.api_keys,
        subst (λ h. count_where (has_hash h) w.api_keys ≡ 0) e fresh,
      )

  old_match : match_key crypto old rotated ≡ some (revoke_key w.clock row)
  unfolding find_where
  old_match =
      match_lem old rotated
      ∙ rw hashes_differ (
          find_where-update (is_api_key row.id) (matches old) (revoke_key w.clock) (λ r. refl)
            w.api_keys row old_found
          ∙ rw (eq_refl row.id))

  new_match : match_key crypto new rotated ≡ some issued
  unfolding find_where
  new_match =
      match_lem new rotated ∙ rw (eq_refl (lookup_prefix new), eq_refl (crypto.hash_api_key new))

  -- For well-formed raw keys, the row that the old one matches, an enabled merchant that owns it,
  -- and a new key whose hash is not stored, a rotation returns a new row with the same name and
  -- scopes; after it the old key is refused as revoked, and the new key authenticates the same
  -- merchant.
  pub rotate_api_key_lem :
      let end = rotate_api_key crypto new key_id row.merchant_id row.id w in
      (end.0 ≡ returned (record { api_key = issued; raw_api_key = new }))
      × ((authenticate_api_key crypto old end.1).0 ≡ thrown (api_error 401 "API_KEY_REVOKED"))
      × ((authenticate_api_key crypto new end.1).0
          ≡ returned (record { merchant = account; api_key = issued }))
  unfolding authenticate_api_key
  rotate_api_key_lem =
      rw rotates (refl, rw (old_shape, old_match), rw (new_shape, new_match, owned, enabled))
