-- ===== src/Api/Auth/ApiKeys.antt =====
-- apps/api/src/auth/api-key.ts: API keys. A raw key is ASCII, so its bytes are its characters; the
-- random part of a new key, and row ids, are arguments.
use Prim.Native.String
use text.Mathlib.Text.{starts_with}
use stellar_journey.Base.{
  ℕ, ◌+◌, ◌*◌, ◌&&◌, String, Bool, true, false, not, ◌||◌, Option, none, some, List, ◌∷◌, str_eq,
  ltb, leb, ◌==◌, count_where, find_where, filter_where, update_where, if◌then◌else◌,
}
use stellar_journey.Base.Effect.{
  pure, throw, gets, or_throw, ◌>>=◌, ◌>>◌, modify, throw_if, transaction,
}
use stellar_journey.Store.{api_error, database_error}
use stellar_journey.Api.Auth.Tables.{
  AccountStatus, Account, ApiKeyStatus, ApiKey, AuthStore, AuthJob, AuthCrypto, is_account,
  is_api_key,
}
use stellar_journey.Api.Auth.Scopes.{api_key_scopes, assert_valid_scopes}

abbrev pub key_prefix_text : String
key_prefix_text = "sk_live_"

abbrev pub prefix_lookup_length : ℕ
prefix_lookup_length = String.len key_prefix_text + 8

abbrev pub lookup_prefix : String → String
lookup_prefix raw = String.slice raw 0 prefix_lookup_length

abbrev pub malformed_key : String → Bool
malformed_key raw =
    not (starts_with raw key_prefix_text) || ltb (String.len raw) (prefix_lookup_length + 16)

abbrev pub has_prefix : String → ApiKey → Bool
has_prefix prefix row = str_eq row.key_prefix prefix

abbrev pub has_hash : String → ApiKey → Bool
has_hash hash row = str_eq row.key_hash hash

pub record AuthenticatedMerchant : Type 0 where
  pub merchant : Account
  pub api_key : ApiKey

abbrev pub is_active_key : ApiKeyStatus → Bool
is_active_key ApiKeyStatus.active = true
is_active_key ApiKeyStatus.revoked = false

abbrev pub is_active_account : AccountStatus → Bool
is_active_account AccountStatus.active = true
is_active_account AccountStatus.disabled = false

-- Never used, or not within the hour.
abbrev pub use_is_stale : Option ℕ → ℕ → Bool
use_is_stale none now = true
use_is_stale (some last) now = leb (last + 60 * 60 * 1000) now

abbrev pub used_key : ℕ → ApiKey → ApiKey
used_key clock row = record row { last_used_at = some clock }

abbrev pub touch_if : Bool → String → AuthJob (Unit {0})
touch_if false id = pure tt
touch_if true id =
    modify (λ w. record w { api_keys = update_where (is_api_key id) (used_key w.clock) w.api_keys })

abbrev pub accept_key : ApiKey → Account → AuthJob AuthenticatedMerchant
accept_key row account =
    if not (is_active_account account.status)
    then throw (api_error 403 "MERCHANT_DISABLED")
    else (do
      clock ← gets (λ w. w.clock)
      touch_if (use_is_stale row.last_used_at clock) row.id
      pure (record { merchant = account; api_key = row }))

-- The row that matches, with its merchant, which its foreign key names.
abbrev pub check_key : ApiKey → AuthJob AuthenticatedMerchant
check_key row =
    if not (is_active_key row.status) then throw (api_error 401 "API_KEY_REVOKED") else (do
      found ← gets (λ w. find_where (is_account row.merchant_id) w.accounts)
      account ← or_throw found (database_error "P2003")
      accept_key row account)

-- `merchant.apiKeys.create` and `apiKey.create`: the schema's defaults for the rest.
abbrev pub new_api_key : String → String → String → List String → String → String → ℕ → ApiKey
new_api_key id merchant_id name scopes prefix hash clock = record {
  id = id;
  merchant_id = merchant_id;
  name = name;
  scopes = scopes;
  key_prefix = prefix;
  key_hash = hash;
  status = ApiKeyStatus.active;
  last_used_at = none;
  revoked_at = none;
  created_at = clock;
}

abbrev pub add_key : ApiKey → AuthStore → AuthStore
add_key row w = record w { api_keys = row ∷ w.api_keys }

-- The hash of a key is unique.
unfoldable pub create_key : ApiKey → AuthJob (Unit {0})
create_key row = do
  taken ← gets (λ w. count_where (has_hash row.key_hash) w.api_keys)
  throw_if (not (taken == 0)) (database_error "P2002")
  modify (add_key row)

-- The wallet of a merchant is unique.
abbrev pub has_wallet : String → Account → Bool
has_wallet wallet_address row = str_eq row.wallet_address wallet_address

abbrev pub new_account : String → String → String → Account
new_account id name wallet_address = record {
  id = id;
  name = name;
  wallet_address = wallet_address;
  status = AccountStatus.active;
}

unfoldable pub create_account : Account → AuthJob (Unit {0})
create_account row = do
  taken ← gets (λ w. count_where (has_wallet row.wallet_address) w.accounts)
  throw_if (not (taken == 0)) (database_error "P2002")
  modify (λ w. record w { accounts = row ∷ w.accounts })

abbrev pub revoke_key : ℕ → ApiKey → ApiKey
revoke_key clock row = record row { status = ApiKeyStatus.revoked; revoked_at = some clock }

abbrev pub is_key_of : String → String → ApiKey → Bool
is_key_of merchant_id id row = is_api_key id row && str_eq row.merchant_id merchant_id

pub record IssuedApiKey : Type 0 where
  pub api_key : ApiKey
  pub raw_api_key : String

module _ (crypto : AuthCrypto) where
  -- The loop over the rows of the prefix, which ends at the first row of the hash.
  abbrev pub match_key : String → AuthStore → Option ApiKey
  match_key raw w =
      find_where (has_hash (crypto.hash_api_key raw))
        (filter_where (has_prefix (lookup_prefix raw)) w.api_keys)

  abbrev pub check_match : Option ApiKey → AuthJob AuthenticatedMerchant
  check_match none = throw (api_error 401 "INVALID_API_KEY")
  check_match (some row) = check_key row

  unfoldable pub authenticate_api_key : String → AuthJob AuthenticatedMerchant
  authenticate_api_key raw =
      if malformed_key raw
      then throw (api_error 401 "INVALID_API_KEY")
      else (do row ← gets (match_key raw); check_match row)

  unfoldable pub create_merchant_with_api_key :
      String → String → String → String → String → AuthJob IssuedApiKey
  create_merchant_with_api_key raw key_id account_id name wallet_address = do
    clock ← gets (λ w. w.clock)
    let row =
        new_api_key key_id account_id "Default" api_key_scopes (lookup_prefix raw)
          (crypto.hash_api_key raw) clock
    transaction (do create_account (new_account account_id name wallet_address); create_key row)
    pure (record { api_key = row; raw_api_key = raw })

  unfoldable pub rotate_api_key : String → String → String → String → AuthJob IssuedApiKey
  rotate_api_key raw key_id merchant_id current_id = transaction (do
    found ← gets (λ w. find_where (is_key_of merchant_id current_id) w.api_keys)
    current ← or_throw found (database_error "P2025")
    modify (λ w. record w {
      api_keys = update_where (is_api_key current_id) (revoke_key w.clock) w.api_keys;
    })
    clock ← gets (λ w. w.clock)
    let row =
        new_api_key key_id merchant_id current.name current.scopes (lookup_prefix raw)
          (crypto.hash_api_key raw) clock
    create_key row
    pure (record { api_key = row; raw_api_key = raw }))

  unfoldable pub create_scoped_api_key :
      String → String → String → String → List String → AuthJob IssuedApiKey
  create_scoped_api_key raw key_id merchant_id name scopes = do
    assert_valid_scopes scopes
    clock ← gets (λ w. w.clock)
    let row =
        new_api_key key_id merchant_id name scopes (lookup_prefix raw) (crypto.hash_api_key raw)
          clock
    create_key row
    pure (record { api_key = row; raw_api_key = raw })
