-- ===== src/Shared/UrlGuard/Approval.antt =====
-- What `assertSafeWebhookUrl` of packages/shared/src/webhook-url-guard.ts approves.
use stellar_journey.Base.{
  ◌≡◌, ◌⊎◌, refl, true, false, Option, none, some, List, [], ◌∷◌, arith, codes, units_eq,
  units_eq_iff,
}
use stellar_journey.Base.Effect.{returned}
use stellar_journey.Shared.Money.{Units}
use stellar_journey.Shared.UrlGuard.{
  ResolvedHostAddress, Url, NetDeps, AssertSafeWebhookUrlOptions, SafeWebhookUrlInfo, to_lower,
  bare_hostname, any_blocked, resolved, addresses_of, check_addresses, check_host, check_url,
  assert_safe_webhook_url,
}

module _ (net : NetDeps) (options : AssertSafeWebhookUrlOptions) where
  -- What an approved URL satisfies.
  pub record Approved (raw_url : Units) (info : SafeWebhookUrlInfo) : Type 0 where
    pub url : Url
    pub parsed : net.parse_url raw_url ≡ some url
    pub protocol_allowed :
        (url.protocol ≡ codes "https:")
        ⊎ ((url.protocol ≡ codes "http:") × (options.allow_insecure_http ≡ true))
    pub same_host : info.hostname ≡ bare_hostname url.hostname
    pub not_local :
        (options.allow_private_addresses ≡ true)
        ⊎ (units_eq (to_lower (bare_hostname url.hostname)) (codes "localhost") ≡ false)
    pub first : ResolvedHostAddress
    pub others : List ResolvedHostAddress
    pub addressed : info.resolved_addresses ≡ first ∷ others
    pub no_blocked :
        (options.allow_private_addresses ≡ true) ⊎ (any_blocked net info.resolved_addresses ≡ false)

  check_addresses_inv :
      (hostname : Units) (o : Option (List ResolvedHostAddress)) (info : SafeWebhookUrlInfo)
      → check_addresses net options hostname o ≡ returned info
      → (info.hostname ≡ hostname)
        × (o ≡ some info.resolved_addresses)
        × ((options.allow_private_addresses ≡ true)
            ⊎ (any_blocked net info.resolved_addresses ≡ false))
  check_addresses_inv hostname none info e = ground arith
  check_addresses_inv hostname (some l) info e = ground arith

  abbrev Nonempty : List ResolvedHostAddress → Type 0
  Nonempty l = (a : ResolvedHostAddress) × (r : List ResolvedHostAddress) × (l ≡ a ∷ r)

  resolved-Nonempty :
      (o : Option (List ResolvedHostAddress)) (l : List ResolvedHostAddress)
      → resolved net o ≡ some l
      → Nonempty l
  resolved-Nonempty none l e = ground arith
  resolved-Nonempty (some []) l e = ground arith
  resolved-Nonempty (some (a ∷ r)) l e = (a, r, ground arith)

  literal-Nonempty :
      (a : ResolvedHostAddress) (l : List ResolvedHostAddress) → some (a ∷ []) ≡ some l → Nonempty l
  literal-Nonempty a l e = (a, [], ground arith)

  addresses_of-Nonempty :
      (hostname : Units) (l : List ResolvedHostAddress)
      → addresses_of net hostname ≡ some l
      → Nonempty l
  addresses_of-Nonempty hostname l e = ground (
    arith,
    resolved-Nonempty (net.resolve_host hostname) l,
    literal-Nonempty (record { address = hostname; family = net.is_ip hostname }) l,
  )

  check_host_inv :
      (hostname : Units) (info : SafeWebhookUrlInfo)
      → check_host net options hostname ≡ returned info
      → ((options.allow_private_addresses ≡ true)
          ⊎ (units_eq (to_lower hostname) (codes "localhost") ≡ false))
        × (check_addresses net options hostname (addresses_of net hostname) ≡ returned info)
  unfolding check_host
  check_host_inv hostname info e = ground arith

  approve :
      (raw_url : Units) (info : SafeWebhookUrlInfo) (u : Url)
      → net.parse_url raw_url ≡ some u
      → (u.protocol ≡ codes "https:")
        ⊎ ((u.protocol ≡ codes "http:") × (options.allow_insecure_http ≡ true))
      → check_host net options (bare_hostname u.hostname) ≡ returned info
      → Approved raw_url info
  approve raw_url info u p protocol h =
      let host = bare_hostname u.hostname in
      let checked = check_host_inv host info h in
      let found = check_addresses_inv host (addresses_of net host) info checked.1 in
      let some_address = addresses_of-Nonempty host info.resolved_addresses found.1 in
      record {
        url = u;
        parsed = p;
        protocol_allowed = protocol;
        same_host = found.0;
        not_local = checked.0;
        first = some_address.0;
        others = some_address.1;
        addressed = some_address.2;
        no_blocked = found.2;
      }

  check_url_inv :
      (u : Url) (info : SafeWebhookUrlInfo)
      → check_url net options (some u) ≡ returned info
      → ((u.protocol ≡ codes "https:")
          ⊎ ((u.protocol ≡ codes "http:") × (options.allow_insecure_http ≡ true)))
        × (check_host net options (bare_hostname u.hostname) ≡ returned info)
  unfolding check_url
  check_url_inv u info e =
      ground
        (arith, units_eq_iff u.protocol (codes "https:"), units_eq_iff u.protocol (codes "http:"))

  check_url-Approved :
      (raw_url : Units) (info : SafeWebhookUrlInfo) (o : Option Url)
      → net.parse_url raw_url ≡ o
      → check_url net options o ≡ returned info
      → Approved raw_url info
  unfolding check_url
  check_url-Approved raw_url info none p h = ground arith
  check_url-Approved raw_url info (some u) p h =
      let inv = check_url_inv u info h in approve raw_url info u p inv.0 inv.1

  -- A webhook URL that the guard lets through parses, is an https URL or, where that is allowed,
  -- an http URL, its host is not localhost and none of its addresses is blocked unless private
  -- addresses are allowed, and the answer names its host without brackets and at least one
  -- address.
  pub assert_safe_webhook_url-Approved :
      (raw_url : Units) (info : SafeWebhookUrlInfo)
      → assert_safe_webhook_url net options raw_url ≡ returned info
      → Approved raw_url info
  unfolding assert_safe_webhook_url
  assert_safe_webhook_url-Approved raw_url info e =
      check_url-Approved raw_url info (net.parse_url raw_url) refl e
