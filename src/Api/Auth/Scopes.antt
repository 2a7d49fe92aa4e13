-- ===== src/Api/Auth/Scopes.antt =====
-- apps/api/src/auth/scopes.ts: what an API key may be used for.
use stellar_journey.Base.{
  String, Bool, false, not, ◌||◌, ◌≡◌, List, [], ◌∷◌, str_eq, filter_where, all_where, arith,
  if◌then◌else◌, refl,
}
use stellar_journey.Base.Effect.{pure, throw, returned, thrown}
use stellar_journey.Store.{Fault, api_error}
use stellar_journey.Api.Auth.Tables.{ApiKey, AuthStore, AuthJob}

abbrev pub api_key_scopes : List String
api_key_scopes =
    "products:read" ∷ "products:write" ∷ "checkout_sessions:read" ∷ "checkout_sessions:write"
    ∷ "mandates:read" ∷ "charges:read" ∷ "charges:write" ∷ "payments:read" ∷ "refunds:read"
    ∷ "refunds:write" ∷ "webhooks:read" ∷ "webhooks:write" ∷ "api_keys:manage" ∷ []

-- `includes` of a list of strings.
abbrev pub has_scope : List String → String → Bool
has_scope [] scope = false
has_scope (s ∷ scopes) scope = str_eq s scope || has_scope scopes scope

-- Throws where the list of offending scopes is not empty.
abbrev pub none_left : Fault → List String → AuthJob (Unit {0})
none_left e [] = pure tt
none_left e (s ∷ scopes) = throw e

unfoldable pub assert_valid_scopes : List String → AuthJob (Unit {0})
assert_valid_scopes scopes =
    none_left (api_error 403 "INVALID_API_KEY_SCOPE")
      (filter_where (λ s. not (has_scope api_key_scopes s)) scopes)

unfoldable pub require_api_key_scopes : ApiKey → List String → AuthJob (Unit {0})
require_api_key_scopes api_key required =
    none_left (api_error 403 "INSUFFICIENT_SCOPE")
      (filter_where (λ s. not (has_scope api_key.scopes s)) required)

none_left_lem :
    (e : Fault) (p : String → Bool) (scopes : List String) (w : AuthStore)
    → none_left e (filter_where (λ s. not (p s)) scopes) w
      ≡ (if all_where p scopes then (returned tt, w) else (thrown e, w))
unfolding filter_where all_where
none_left_lem e p [] w = refl
none_left_lem e p (s ∷ scopes) w = ground (arith, none_left_lem e p scopes w)

-- An API key passes exactly when every required scope is among its own; else the request is
-- refused as of insufficient scope, and in either case nothing is written.
pub require_api_key_scopes_lem :
    (api_key : ApiKey) (required : List String) (w : AuthStore)
    → require_api_key_scopes api_key required w ≡ (
        if all_where (has_scope api_key.scopes) required
        then (returned tt, w)
        else (thrown (api_error 403 "INSUFFICIENT_SCOPE"), w))
unfolding require_api_key_scopes
require_api_key_scopes_lem api_key required w =
    none_left_lem (api_error 403 "INSUFFICIENT_SCOPE") (has_scope api_key.scopes) required w
