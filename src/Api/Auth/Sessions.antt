-- ===== src/Api/Auth/Sessions.antt =====
-- apps/api/src/auth/merchant-session.ts: wallet challenges and merchant sessions. The message of a
-- challenge, with its random nonce, the raw token of a session and the row ids are arguments.
pub mod Once
use Prim.Native.String
use text.Mathlib.Text.{starts_with}
use stellar_journey.Base.{
  ℕ, ◌+◌, ◌*◌, String, Bool, true, false, not, ◌||◌, ◌&&◌, Option, none, some, List, [], ◌∷◌,
  str_eq, ltb, leb, ◌==◌, truthy, count_where, find_where, filter_where, update_where,
  if◌then◌else◌,
}
use stellar_journey.Base.Effect.{
  pure, throw, gets, or_throw, ◌>>=◌, ◌>>◌, modify, throw_if, transaction,
}
use stellar_journey.Store.{Fault, api_error, database_error}
use stellar_journey.Api.Auth.Tables.{
  Account, Challenge, Session, AuthStore, AuthJob, AuthCrypto, is_account,
}
use stellar_journey.Api.Auth.ApiKeys.{is_active_account, use_is_stale, has_wallet, new_account}

abbrev pub session_prefix : String
session_prefix = "pms_live_"

abbrev pub session_lookup_length : ℕ
session_lookup_length = String.len session_prefix + 8

abbrev pub challenge_ttl_ms : ℕ
challenge_ttl_ms = 5 * 60 * 1000

abbrev pub session_ttl_ms : ℕ
session_ttl_ms = 24 * 60 * 60 * 1000

abbrev pub token_prefix_of : String → String
token_prefix_of raw = String.slice raw 0 session_lookup_length

abbrev pub is_challenge : String → Challenge → Bool
is_challenge id row = str_eq row.id id

abbrev pub is_session : String → Session → Bool
is_session id row = str_eq row.id id

-- What a wallet sends back.
pub record Completion : Type 0 where
  pub challenge_id : String
  pub message : String
  pub signature : String
  pub signer_address : String
  pub now : ℕ

pub record CompletedChallenge : Type 0 where
  pub raw_session_token : String
  pub expires_at : ℕ
  pub profile_required : Bool
  pub merchant : Option Account

abbrev pub is_set : {A : Type 0} → Option A → Bool
is_set none = false
is_set (some a) = true

-- `where: { id, usedAt: null, expiresAt: { gt: now } }`.
abbrev pub is_open : String → ℕ → Challenge → Bool
is_open id now row = is_challenge id row && not (is_set row.used_at) && ltb now row.expires_at

abbrev pub use_challenge : ℕ → Challenge → Challenge
use_challenge now row = record row { used_at = some now }

abbrev pub id_of : Option Account → Option String
id_of none = none
id_of (some account) = some account.id

abbrev pub challenge_used : Fault
challenge_used = api_error 409 "AUTH_CHALLENGE_USED"

module _ (crypto : AuthCrypto) where
  unfoldable pub create_merchant_auth_challenge :
      String → String → String → ℕ → AuthJob (String × ℕ)
  create_merchant_auth_challenge id message wallet_address now = do
    let expires_at = now + challenge_ttl_ms
    modify (λ w. record w {
      challenges =
          record {
            id = id;
            wallet_address = wallet_address;
            message_hash = crypto.message_digest message;
            expires_at = expires_at;
            used_at = none;
          }
          ∷ w.challenges;
    })
    pure (id, expires_at)

  -- The error of the first check that a completion fails.
  unfoldable pub refusal : Completion → Challenge → Option Fault
  refusal input challenge =
      if is_set challenge.used_at
      then some challenge_used
      else (if leb challenge.expires_at input.now
          then some (api_error 401 "AUTH_CHALLENGE_EXPIRED")
          else (if not (str_eq challenge.wallet_address input.signer_address)
              then some (api_error 401 "WALLET_ADDRESS_MISMATCH")
              else (if not (str_eq challenge.message_hash (crypto.message_digest input.message))
                  then some (api_error 401 "INVALID_AUTH_CHALLENGE")
                  else (if not (
                        crypto.verifies input.signer_address (crypto.message_digest input.message)
                          input.signature)
                      then some (api_error 401 "INVALID_WALLET_SIGNATURE")
                      else none))))

  abbrev pub new_session : String → String → Completion → Option Account → Session
  new_session raw session_id input merchant = record {
    id = session_id;
    merchant_id = id_of merchant;
    wallet_address = input.signer_address;
    token_prefix = token_prefix_of raw;
    token_hash = crypto.session_hash raw;
    expires_at = input.now + session_ttl_ms;
    last_used_at = none;
    revoked_at = none;
  }

  abbrev pub completed_challenge : String → Completion → Option Account → CompletedChallenge
  completed_challenge raw input merchant = record {
    raw_session_token = raw;
    expires_at = input.now + session_ttl_ms;
    profile_required = not (is_set merchant);
    merchant = merchant;
  }

  -- The transaction that uses the challenge up and opens a session.
  unfoldable pub open_session : String → String → Completion → AuthJob CompletedChallenge
  open_session raw session_id input = transaction (do
    consumed ← gets (λ w. count_where (is_open input.challenge_id input.now) w.challenges)
    modify (λ w. record w {
      challenges =
          update_where (is_open input.challenge_id input.now) (use_challenge input.now)
            w.challenges;
    })
    throw_if (not (consumed == 1)) challenge_used
    merchant ← gets (λ w. find_where (has_wallet input.signer_address) w.accounts)
    modify (λ w. record w { sessions = new_session raw session_id input merchant ∷ w.sessions })
    pure (completed_challenge raw input merchant))

  unfoldable pub after_checks :
      String → String → Completion → Option Fault → AuthJob CompletedChallenge
  after_checks raw session_id input (some e) = throw e
  after_checks raw session_id input none = open_session raw session_id input

  unfoldable pub complete_merchant_auth_challenge :
      String → String → Completion → AuthJob CompletedChallenge
  complete_merchant_auth_challenge raw session_id input = do
    found ← gets (λ w. find_where (is_challenge input.challenge_id) w.challenges)
    challenge ← or_throw found (api_error 401 "INVALID_AUTH_CHALLENGE")
    after_checks raw session_id input (refusal input challenge)

  abbrev pub malformed_token : String → Bool
  malformed_token raw =
      not (starts_with raw session_prefix) || ltb (String.len raw) (session_lookup_length + 16)

  -- The loop over the rows of the prefix, which ends at the first row of the hash.
  abbrev pub match_session : String → AuthStore → Option Session
  match_session raw w =
      find_where (λ row. str_eq row.token_hash (crypto.session_hash raw))
        (filter_where (λ row. str_eq row.token_prefix (token_prefix_of raw)) w.sessions)

  abbrev pub used_session : ℕ → Session → Session
  used_session now row = record row { last_used_at = some now }

  abbrev pub touch_session : Bool → String → ℕ → AuthJob (Unit {0})
  touch_session false id now = pure tt
  touch_session true id now =
      modify
        (λ w. record w { sessions = update_where (is_session id) (used_session now) w.sessions })

  -- A session with its merchant, where it has one.
  abbrev pub accept_session :
      Bool → ℕ → Session → Option Account → AuthJob (Session × Option Account)
  accept_session allow_pending now row none =
      if allow_pending then pure (row, none) else throw (api_error 403 "MERCHANT_PROFILE_REQUIRED")
  accept_session allow_pending now row (some account) =
      if not (is_active_account account.status)
      then throw (api_error 403 "MERCHANT_DISABLED")
      else (do
        touch_session (use_is_stale row.last_used_at now) row.id now
        pure (row, some account))

  -- `include: { merchant: true }`.
  abbrev pub merchant_of : Session → AuthStore → Option Account
  merchant_of row w = owner row.merchant_id
    where
      owner : Option String → Option Account
      owner none = none
      owner (some id) = find_where (is_account id) w.accounts

  abbrev pub check_session : Bool → ℕ → Option Session → AuthJob (Session × Option Account)
  check_session allow_pending now none = throw (api_error 401 "INVALID_MERCHANT_SESSION")
  check_session allow_pending now (some row) =
      if is_set row.revoked_at || leb row.expires_at now
      then throw (api_error 401 "MERCHANT_SESSION_EXPIRED")
      else (do merchant ← gets (merchant_of row); accept_session allow_pending now row merchant)

  unfoldable pub authenticate_merchant_session :
      Bool → ℕ → String → AuthJob (Session × Option Account)
  authenticate_merchant_session allow_pending now raw =
      if malformed_token raw
      then throw (api_error 401 "INVALID_MERCHANT_SESSION")
      else (do row ← gets (match_session raw); check_session allow_pending now row)

abbrev pub is_live_session : String → Session → Bool
is_live_session id row = is_session id row && not (is_set row.revoked_at)

abbrev pub revoke_session : ℕ → Session → Session
revoke_session now row = record row { revoked_at = some now }

unfoldable pub revoke_merchant_session : String → ℕ → AuthJob (Unit {0})
revoke_merchant_session id now =
    modify (λ w. record w {
      sessions = update_where (is_live_session id) (revoke_session now) w.sessions;
    })

abbrev pub upsert_account : String → String → String → Option Account → AuthJob Account
upsert_account id name wallet_address (some account) = pure account
upsert_account id name wallet_address none = do
  modify (λ w. record w { accounts = new_account id name wallet_address ∷ w.accounts })
  pure (new_account id name wallet_address)

abbrev pub owned_by : String → Session → Session
owned_by merchant_id row = record row { merchant_id = some merchant_id }

-- `if (session.merchantId)`.
abbrev pub register_owned : String → Session → String → Option String → AuthJob Account
register_owned new_id row name (some id) = do
  found ← gets (λ w. find_where (is_account id) w.accounts)
  or_throw found (database_error "P2025")
register_owned new_id row name none = transaction (do
  found ← gets (λ w. find_where (has_wallet row.wallet_address) w.accounts)
  account ← upsert_account new_id name row.wallet_address found
  present ← gets (λ w. count_where (is_session row.id) w.sessions)
  throw_if (present == 0) (database_error "P2025")
  modify (λ w. record w {
    sessions = update_where (is_session row.id) (owned_by account.id) w.sessions;
  })
  pure account)

unfoldable pub register_verified_merchant : String → Session → String → AuthJob Account
register_verified_merchant new_id row name = register_owned new_id row name (truthy row.merchant_id)
