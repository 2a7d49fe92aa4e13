-- ===== src/Api/Auth/Tables.antt =====
-- The tables of prisma/schema.prisma that authentication reads and writes. `node:crypto` and the
-- wallet's signatures are given by `AuthCrypto`.
use stellar_journey.Base.{ℕ, String, Bool, Option, List, str_eq}
use stellar_journey.Base.Effect.{Run}
use stellar_journey.Store.{Fault}

pub data AccountStatus : Type 0 where
  active disabled : AccountStatus

pub data ApiKeyStatus : Type 0 where
  active revoked : ApiKeyStatus

pub record Account : Type 0 where
  pub id : String
  pub name : String
  pub wallet_address : String
  pub status : AccountStatus

pub record ApiKey : Type 0 where
  pub id : String
  pub merchant_id : String
  pub name : String
  pub scopes : List String
  pub key_prefix : String
  pub key_hash : String
  pub status : ApiKeyStatus
  pub last_used_at : Option ℕ
  pub revoked_at : Option ℕ
  pub created_at : ℕ

pub record Challenge : Type 0 where
  pub id : String
  pub wallet_address : String
  pub message_hash : String
  pub expires_at : ℕ
  pub used_at : Option ℕ

pub record Session : Type 0 where
  pub id : String
  pub merchant_id : Option String
  pub wallet_address : String
  pub token_prefix : String
  pub token_hash : String
  pub expires_at : ℕ
  pub last_used_at : Option ℕ
  pub revoked_at : Option ℕ

pub record AuthStore : Type 0 where
  pub accounts : List Account
  pub api_keys : List ApiKey
  pub challenges : List Challenge
  pub sessions : List Session
  pub clock : ℕ

abbrev pub AuthJob : Type 0 → Type 0
AuthJob A = Run AuthStore Fault A

pub record AuthCrypto : Type 0 where
  -- `hashApiKey` and `sessionHash` under the server's secret, in hexadecimal.
  pub hash_api_key : String → String
  pub session_hash : String → String
  -- `signedMessageDigest`, in hexadecimal.
  pub message_digest : String → String
  -- Whether a signer's signature of a digest is valid; false where decoding it throws.
  pub verifies : String → String → String → Bool

abbrev pub is_account : String → Account → Bool
is_account id row = str_eq row.id id

abbrev pub is_api_key : String → ApiKey → Bool
is_api_key id row = str_eq row.id id
