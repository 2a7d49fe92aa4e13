-- ===== src/Api/Auth/Accounts.antt =====
-- apps/api/src/routes/merchants.ts with apps/api/src/schemas/merchants.ts: a wallet signs in, registers its
-- profile and signs out; a merchant makes, rotates and revokes its API keys. Raw credentials, messages and row
-- ids are arguments, as in the modules below. The rate limits are left out.
pub mod Ended
pub mod Deleted
use Prim.Native.Char.{code}
use Prim.Native.String
use stellar_journey.Base.{
  ℕ, String, Bool, true, false, not, ◌&&◌, Option, none, some, List, [], ◌∷◌, map, str_eq,
  filter_where, ltb, leb, ◌==◌, length, codes, is_space, all_where, count_where, update_where,
  if◌then◌else◌,
}
use stellar_journey.Base.Effect.{pure, throw, gets, or_throw, ◌>>=◌, ◌>>◌, modify, throw_if}
use stellar_journey.Store.{Fault, api_error}
use stellar_journey.Api.Routes.Listing.{newest_first}
use stellar_journey.Api.Auth.Tables.{
  Account, ApiKey, ApiKeyStatus, Session, AuthStore, AuthJob, AuthCrypto, is_api_key,
}
use stellar_journey.Api.Auth.Scopes.{api_key_scopes, has_scope}
use stellar_journey.Api.Auth.ApiKeys.{
  IssuedApiKey, is_active_key, is_key_of, revoke_key, rotate_api_key, create_scoped_api_key,
}
use stellar_journey.Api.Auth.Sessions.{
  Completion, CompletedChallenge, create_merchant_auth_challenge, complete_merchant_auth_challenge,
  authenticate_merchant_session, revoke_merchant_session, register_verified_merchant,
}
use stellar_journey.Api.Auth.Hook.{
  MerchantCredential, api_key, session, MerchantContext, bearer, missing_api_key, skip_spaces,
  require_api_key_credential,
}

-- What zod tests: the format `uuid` and `StellarAccountAddressSchema`.
pub record Formats : Type 0 where
  pub is_uuid : String → Bool
  pub is_account_address : String → Bool

abbrev pub bad_body : Fault
bad_body = api_error 400 "VALIDATION_ERROR"

abbrev pub has_length : ℕ → ℕ → String → Bool
has_length low high s = leb low (length (codes s)) && leb (length (codes s)) high

-- `trim`: white space at the end is dropped, then at the start.
unfoldable pub drop_last_spaces : String → String
drop_last_spaces String.[] = String.[]
drop_last_spaces (String.◌∷◌ c s) = keep (drop_last_spaces s)
  where
    keep : String → String
    keep String.[] = if is_space (code c) then String.[] else String.◌∷◌ c String.[]
    keep (String.◌∷◌ d r) = String.◌∷◌ c (String.◌∷◌ d r)

abbrev pub trimmed : String → String
trimmed s = skip_spaces (drop_last_spaces s)

abbrev pub or_empty : Option String → String
or_empty none = ""
or_empty (some s) = s

abbrev pub require_bearer_credential : Option String → AuthJob String
require_bearer_credential header = or_throw (bearer (or_empty header)) missing_api_key

unfoldable pub is_completion : Formats → Completion → Bool
is_completion formats input =
    formats.is_uuid input.challenge_id
    && has_length 1 2000 input.message
    && has_length 1 256 input.signature
    && formats.is_account_address input.signer_address

unfoldable pub is_key_request : String → List String → Bool
is_key_request name scopes =
    has_length 1 100 (trimmed name)
    && all_where (has_scope api_key_scopes) scopes
    && leb 1 (length scopes)
    && leb (length scopes) (length api_key_scopes)

-- A key that the deletion of an id reaches.
abbrev pub is_revocable : String → String → ApiKey → Bool
is_revocable merchant_id id row = is_key_of merchant_id id row && is_active_key row.status

-- Whether the request was made with the key of that id.
abbrev pub is_current : String → MerchantCredential → Bool
is_current id (api_key row) = str_eq id row.id
is_current id (session row) = false

abbrev pub api_key_not_found : Fault
api_key_not_found = api_error 404 "API_KEY_NOT_FOUND"

abbrev pub current_api_key : Fault
current_api_key = api_error 409 "CANNOT_REVOKE_CURRENT_API_KEY"

-- A key as the list shows it: without its hash.
pub record ApiKeyResponse : Type 0 where
  pub id : String
  pub name : String
  pub key_prefix : String
  pub scopes : List String
  pub status : ApiKeyStatus
  pub last_used_at : Option ℕ
  pub created_at : ℕ
  pub revoked_at : Option ℕ

abbrev pub to_api_key_response : ApiKey → ApiKeyResponse
to_api_key_response key = record {
  id = key.id;
  name = key.name;
  key_prefix = key.key_prefix;
  scopes = key.scopes;
  status = key.status;
  last_used_at = key.last_used_at;
  created_at = key.created_at;
  revoked_at = key.revoked_at;
}

unfoldable pub list_api_keys : MerchantContext → AuthJob (List ApiKeyResponse)
list_api_keys context = gets (λ w. map to_api_key_response (
    newest_first (λ row. row.created_at)
      (filter_where (λ row. str_eq row.merchant_id context.merchant.id) w.api_keys)))

abbrev pub revoke_counted : MerchantContext → String → AuthJob (Unit {0})
revoke_counted context id = do
  count ← gets (λ w. count_where (is_revocable context.merchant.id id) w.api_keys)
  modify (λ w. record w {
    api_keys = update_where (is_revocable context.merchant.id id) (revoke_key w.clock) w.api_keys;
  })
  throw_if (not (count == 1)) api_key_not_found

unfoldable pub delete_api_key : MerchantContext → String → AuthJob (Unit {0})
delete_api_key context id = do
  throw_if (is_current id context.credential) current_api_key
  revoke_counted context id

module _ (crypto : AuthCrypto) where
  unfoldable pub post_challenge : Formats → String → String → String → AuthJob (String × ℕ)
  post_challenge formats id message wallet_address = do
    throw_if (not (formats.is_account_address wallet_address)) bad_body
    now ← gets (λ w. w.clock)
    create_merchant_auth_challenge crypto id message wallet_address now

  abbrev pub at_now : Completion → ℕ → Completion
  at_now input now = record input { now = now }

  unfoldable pub post_completion :
      Formats → String → String → Completion → AuthJob CompletedChallenge
  post_completion formats raw session_id input = do
    throw_if (not (is_completion formats input)) bad_body
    now ← gets (λ w. w.clock)
    complete_merchant_auth_challenge crypto raw session_id (at_now input now)

  abbrev pub register_as : String → String → Session × Option Account → AuthJob Account
  register_as new_id name (row, account) = register_verified_merchant new_id row name

  unfoldable pub post_registration : Option String → String → String → AuthJob Account
  post_registration header new_id name = do
    throw_if (not (has_length 1 200 (trimmed name))) bad_body
    raw ← require_bearer_credential header
    now ← gets (λ w. w.clock)
    found ← authenticate_merchant_session crypto true now raw
    register_as new_id (trimmed name) found

  abbrev pub revoke_found : ℕ → Session × Option Account → AuthJob (Unit {0})
  revoke_found now (row, account) = revoke_merchant_session row.id now

  abbrev pub log_out_at : String → ℕ → AuthJob (Unit {0})
  log_out_at raw now = do
    found ← authenticate_merchant_session crypto true now raw
    revoke_found now found

  abbrev pub log_out_raw : String → AuthJob (Unit {0})
  log_out_raw raw = do now ← gets (λ w. w.clock); log_out_at raw now

  unfoldable pub log_out : Option String → AuthJob (Unit {0})
  log_out header = do raw ← require_bearer_credential header; log_out_raw raw

  abbrev pub rotate_key : String → String → String → ApiKey → AuthJob IssuedApiKey
  rotate_key raw key_id merchant_id current =
      rotate_api_key crypto raw key_id merchant_id current.id

  unfoldable pub post_rotation : String → String → MerchantContext → AuthJob IssuedApiKey
  post_rotation raw key_id context = do
    current ← require_api_key_credential context
    rotate_key raw key_id context.merchant.id current

  unfoldable pub post_api_key :
      String → String → MerchantContext → String → List String → AuthJob IssuedApiKey
  post_api_key raw key_id context name scopes = do
    throw_if (not (is_key_request name scopes)) bad_body
    create_scoped_api_key crypto raw key_id context.merchant.id (trimmed name) scopes
