-- ===== src/Api/Auth/Hook.antt =====
-- apps/api/src/auth/plugin.ts: the hook that finds the merchant of a request, by the header
-- `Authorization: Bearer …`. What the hook returns is the `merchantContext` of the request.
pub mod Allowed
use Prim.Native.Char.{code}
use Prim.Native.String
use text.Mathlib.Text.{starts_with}
use stellar_journey.Base.{
  ℕ, ◌+◌, String, Bool, true, false, not, ◌&&◌, ◌||◌, Option, none, some, List, [], ◌∷◌, leb, ◌==◌,
  truthy, codes, is_space, if◌then◌else◌,
}
use stellar_journey.Base.Effect.{pure, throw, gets, or_throw, ◌>>=◌, ◌>>◌}
use stellar_journey.Store.{api_error, Fault}
use stellar_journey.Api.Auth.Tables.{Account, ApiKey, Session, AuthStore, AuthJob, AuthCrypto}
use stellar_journey.Api.Auth.Scopes.{require_api_key_scopes}
use stellar_journey.Api.Auth.ApiKeys.{AuthenticatedMerchant, authenticate_api_key}
use stellar_journey.Api.Auth.Sessions.{session_prefix, authenticate_merchant_session}

pub data MerchantCredential : Type 0 where
  api_key : ApiKey → MerchantCredential
  session : Session → MerchantCredential

pub record MerchantContext : Type 0 where
  pub merchant : Account
  pub credential : MerchantCredential

abbrev pub lower_case : ℕ → ℕ
lower_case c = if leb b'A' c && leb c b'Z' then c + 32 else c

-- The rest of a text that begins with a word, in any case.
unfoldable pub after_word : List ℕ → String → Option String
after_word [] s = some s
after_word (p ∷ ps) String.[] = none
after_word (p ∷ ps) (String.◌∷◌ c s) = if lower_case (code c) == p then after_word ps s else none

unfoldable pub skip_spaces : String → String
skip_spaces String.[] = String.[]
skip_spaces (String.◌∷◌ c s) = if is_space (code c) then skip_spaces s else String.◌∷◌ c s

unfoldable pub lacks_space : String → Bool
lacks_space String.[] = true
lacks_space (String.◌∷◌ c s) = not (is_space (code c)) && lacks_space s

-- `\s+(\S+)$`.
abbrev pub credential_after : Option String → Option String
credential_after none = none
credential_after (some String.[]) = none
credential_after (some (String.◌∷◌ c s)) =
    if is_space (code c) && lacks_space (skip_spaces s) then truthy (some (skip_spaces s)) else none

-- `BEARER_PATTERN`: the credential of a header that matches.
unfoldable pub bearer : String → Option String
bearer header = credential_after (after_word (codes "bearer") header)

abbrev pub missing_api_key : Fault
missing_api_key = api_error 401 "MISSING_API_KEY"

abbrev pub session_context : Session × Option Account → AuthJob MerchantContext
session_context (row, none) = throw (api_error 403 "MERCHANT_PROFILE_REQUIRED")
session_context (row, some account) = pure (record { merchant = account; credential = session row })

abbrev pub key_context : List String → AuthenticatedMerchant → AuthJob MerchantContext
key_context required found = do
  require_api_key_scopes found.api_key required
  pure (record { merchant = found.merchant; credential = api_key found.api_key })

module _ (crypto : AuthCrypto) (required : List String) where
  abbrev pub authenticate_session : String → AuthJob MerchantContext
  authenticate_session raw = do
    now ← gets (λ w. w.clock)
    found ← authenticate_merchant_session crypto false now raw
    session_context found

  abbrev pub authenticate_key : String → AuthJob MerchantContext
  authenticate_key raw = do found ← authenticate_api_key crypto raw; key_context required found

  abbrev pub authenticate_raw : String → AuthJob MerchantContext
  authenticate_raw raw =
      if starts_with raw session_prefix then authenticate_session raw else authenticate_key raw

  abbrev pub authenticate_header : String → AuthJob MerchantContext
  authenticate_header header = do
    raw ← or_throw (bearer header) missing_api_key
    authenticate_raw raw

  unfoldable pub authenticate : Option String → AuthJob MerchantContext
  authenticate header = do
    value ← or_throw (truthy header) missing_api_key
    authenticate_header value

-- What a route asks that takes an API key only.
abbrev pub require_api_key_credential : MerchantContext → AuthJob ApiKey
require_api_key_credential context = of_credential context.credential
  where
    of_credential : MerchantCredential → AuthJob ApiKey
    of_credential (api_key row) = pure row
    of_credential (session row) = throw (api_error 403 "API_KEY_CREDENTIAL_REQUIRED")
