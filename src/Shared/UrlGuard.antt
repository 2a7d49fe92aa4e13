-- ===== src/Shared/UrlGuard.antt =====
-- packages/shared/src/webhook-url-guard.ts: where a webhook may be sent. Texts are lists of code units.
-- `new URL`, `net.isIP` and the DNS resolver are given by `NetDeps`.
pub mod Blocks
pub mod Approval
use stellar_journey.Base.{
  ℕ, ◌+◌, ◌-◌, ◌*◌, ◌/◌, ◌%◌, String, Bool, true, false, not, ◌&&◌, ◌||◌, Option, none, some, List,
  [], ◌∷◌, ◌++◌, map, leb, ltb, ◌==◌, if◌then◌else◌, codes, split, length, units_eq, get_elem?,
  split_first,
}
use stellar_journey.Base.Effect.{Result, returned, thrown}
use stellar_journey.Shared.Money.{Units, dot, is_number, to_string, value, zeros}
use stellar_journey.Shared.HexId.{hex_digit}

pub data UrlGuardError : Type 0 where
  invalid_url invalid_protocol insecure_protocol blocked_host dns_resolution_failed : UrlGuardError

pub record ResolvedHostAddress : Type 0 where
  pub address : Units
  pub family : ℕ

-- The parts of a URL that are read.
pub record Url : Type 0 where
  pub protocol : Units
  pub hostname : Units

pub record NetDeps : Type 0 where
  -- `new URL`; `none` where it throws.
  pub parse_url : Units → Option Url
  -- `net.isIP`: 4, 6, or 0 for a text that is no address.
  pub is_ip : Units → ℕ
  -- The resolver; `none` where it rejects.
  pub resolve_host : Units → Option (List ResolvedHostAddress)

-- The Boolean tests on the first two octets.
unfoldable pub is_private_octets : ℕ → ℕ → Bool
is_private_octets a b =
    a == 127
    || a == 10
    || (a == 172 && leb 16 b && leb b 31)
    || (a == 192 && b == 168)
    || (a == 169 && b == 254)
    || (a == 100 && leb 64 b && leb b 127)
    || a == 0
    || leb 224 a

-- `Number` of an octet, which callers take from an address; a text that is no number is `none`.
abbrev pub octet : Units → Option ℕ
octet s = if is_number s then some (value 0 s) else none

-- `octets[i] ?? 0`.
abbrev pub octet_at : ℕ → List Units → Option ℕ
octet_at i parts = of_part (get_elem? parts i)
  where
    of_part : Option Units → Option ℕ
    of_part none = some 0
    of_part (some s) = octet s

-- A comparison with NaN is false, so without a first octet no test is true; the second is read only by
-- tests that want it.
abbrev pub private_of : Option ℕ → Option ℕ → Bool
private_of none b = false
private_of (some a) none = a == 127 || a == 10 || a == 0 || leb 224 a
private_of (some a) (some b) = is_private_octets a b

unfoldable pub is_private_or_reserved_ipv4 : Units → Bool
is_private_or_reserved_ipv4 address =
    let octets = split dot address in private_of (octet_at 0 octets) (octet_at 1 octets)

abbrev pub colon : ℕ
colon = b':'

abbrev pub push : ℕ → Option (Units × Units) → Option (Units × Units)
push c none = none
push c (some (left, right)) = some (c ∷ left, right)

-- What stands before the first double colon, and after it.
unfoldable pub cut_double : Units → Option (Units × Units)
cut_double (c ∷ d ∷ s) =
    let later = push c (cut_double (d ∷ s)) in
    if c == colon && d == colon then some ([], s) else later
cut_double _ = none

-- `side ? side.split(":") : []`.
abbrev pub hextets_of : Units → List Units
hextets_of [] = []
hextets_of (c ∷ s) = split colon (c ∷ s)

unfoldable pub zero_hextets : ℕ → List Units
zero_hextets n = map (λ c. c ∷ []) (zeros n)

abbrev pub fill : List Units → List Units → Option (List Units)
fill head tail =
    if ltb 8 (length head + length tail)
    then none
    else some (head ++ (zero_hextets (8 - length head - length tail) ++ tail))

abbrev pub is_cut : Option (Units × Units) → Bool
is_cut none = false
is_cut (some p) = true

abbrev pub expand_cut : Units → Option (Units × Units) → Option (List Units)
expand_cut bare none = if length (split colon bare) == 8 then some (split colon bare) else none
expand_cut bare (some (left, right)) =
    if is_cut (cut_double right) then none else fill (hextets_of left) (hextets_of right)

-- The eight hextets of an address, without its zone.
unfoldable pub expand_ipv6_hextets : Units → Option (List Units)
expand_ipv6_hextets address =
    let bare = split_first b'%' address in expand_cut bare (cut_double bare)

-- `parseInt(…, 16)` after some digits: the number of the hexadecimal digits in front.
abbrev pub hex_step : Option ℕ → ℕ → (ℕ → ℕ) → ℕ
hex_step none n later = n
hex_step (some d) n later = later (n * 16 + d)

unfoldable pub hex_after : ℕ → Units → ℕ
hex_after n [] = n
hex_after n (c ∷ s) = hex_step (hex_digit c) n (λ m. hex_after m s)

abbrev pub is_given : Option ℕ → Bool
is_given none = false
is_given (some d) = true

-- `none` is NaN; an empty hextet counts as "0".
unfoldable pub hextet_value : Units → Option ℕ
hextet_value [] = some 0
hextet_value (c ∷ s) = if is_given (hex_digit c) then some (hex_after 0 (c ∷ s)) else none

abbrev pub also : Option ℕ → Option (List ℕ) → Option (List ℕ)
also (some v) (some vs) = some (v ∷ vs)
also _ _ = none

unfoldable pub hextet_values : List Units → Option (List ℕ)
hextet_values [] = some []
hextet_values (h ∷ hs) = also (hextet_value h) (hextet_values hs)

-- A dotted address of four numbers.
abbrev pub dotted : ℕ → ℕ → ℕ → ℕ → Units
dotted a b c d =
    to_string a ++ (dot ∷ (to_string b ++ (dot ∷ (to_string c ++ (dot ∷ to_string d)))))

abbrev pub mapped_of : List ℕ → Option Units
mapped_of (v0 ∷ v1 ∷ v2 ∷ v3 ∷ v4 ∷ v5 ∷ high ∷ low ∷ []) =
    if v0 == 0 && v1 == 0 && v2 == 0 && v3 == 0 && v4 == 0 && v5 == 0xffff
    then some (dotted (high / 256 % 256) (high % 256) (low / 256 % 256) (low % 256))
    else none
mapped_of _ = none

abbrev pub mapped_values : Option (List ℕ) → Option Units
mapped_values none = none
mapped_values (some values) = mapped_of values

abbrev pub mapped_hextets : Option (List Units) → Option Units
mapped_hextets none = none
mapped_hextets (some hextets) = mapped_values (hextet_values hextets)

unfoldable pub ipv6_mapped_hex_to_ipv4 : Units → Option Units
ipv6_mapped_hex_to_ipv4 address = mapped_hextets (expand_ipv6_hextets address)

unfoldable pub to_lower : Units → Units
to_lower s = map (λ c. if leb b'A' c && leb c b'Z' then c + 32 else c) s

-- `^fe[89ab][0-9a-f]:` of a text in lower case.
unfoldable pub is_link_local : Units → Bool
is_link_local (f ∷ e ∷ c ∷ d ∷ s ∷ rest) =
    f == b'f'
    && e == b'e'
    && (c == b'8' || c == b'9' || c == b'a' || c == b'b')
    && is_given (hex_digit d)
    && s == colon
is_link_local _ = false

unfoldable pub is_unique_local : Units → Bool
is_unique_local (f ∷ c ∷ rest) = f == b'f' && (c == b'c' || c == b'd')
is_unique_local _ = false

abbrev pub mapped_prefix : Units
mapped_prefix = codes "::ffff:"

-- The rest of a text that begins with a prefix.
unfoldable pub without_prefix : Units → Units → Option Units
without_prefix [] s = some s
without_prefix (p ∷ prefix) [] = none
without_prefix (p ∷ prefix) (c ∷ s) = if p == c then without_prefix prefix s else none

unfoldable pub is_dotted : List Units → Bool
is_dotted (a ∷ b ∷ c ∷ d ∷ []) = is_number a && is_number b && is_number c && is_number d
is_dotted _ = false

pub record AssertSafeWebhookUrlOptions : Type 0 where
  pub allow_insecure_http : Bool
  pub allow_private_addresses : Bool

pub record SafeWebhookUrlInfo : Type 0 where
  pub hostname : Units
  pub resolved_addresses : List ResolvedHostAddress

abbrev pub Guarded : Type 0
Guarded = Result UrlGuardError SafeWebhookUrlInfo

-- `startsWith("[") && endsWith("]")`, and the slice between.
unfoldable pub without_last : Units → Option Units
without_last [] = none
without_last (c ∷ []) = if c == b']' then some [] else none
without_last (c ∷ d ∷ s) = keep (without_last (d ∷ s))
  where
    keep : Option Units → Option Units
    keep none = none
    keep (some r) = some (c ∷ r)

abbrev pub or_else : Option Units → Units → Units
or_else none s = s
or_else (some r) s = r

unfoldable pub bare_hostname : Units → Units
bare_hostname [] = []
bare_hostname (c ∷ s) = if c == b'[' then or_else (without_last s) (c ∷ s) else c ∷ s

module _ (net : NetDeps) where
  -- The dotted form of a mapped address, where it is an IPv4 address.
  abbrev pub dotted_tail : Option Units → Option Units
  dotted_tail none = none
  dotted_tail (some s) = if is_dotted (split dot s) && net.is_ip s == 4 then some s else none

  abbrev pub mapped_or : Option Units → Option Units → Bool
  mapped_or (some quad) hex = is_private_or_reserved_ipv4 quad
  mapped_or none (some quad) = is_private_or_reserved_ipv4 quad
  mapped_or none none = false

  unfoldable pub is_private_or_reserved_ipv6 : Units → Bool
  is_private_or_reserved_ipv6 address =
      let lower = to_lower address in
      units_eq lower (codes "::1")
      || units_eq lower (codes "::")
      || is_link_local lower
      || is_unique_local lower
      || mapped_or (dotted_tail (without_prefix mapped_prefix lower))
          (ipv6_mapped_hex_to_ipv4 lower)

  unfoldable pub is_blocked_address : Units → Bool
  is_blocked_address address =
      if net.is_ip address == 4
      then is_private_or_reserved_ipv4 address
      else (if net.is_ip address == 6 then is_private_or_reserved_ipv6 address else true)

  unfoldable pub any_blocked : List ResolvedHostAddress → Bool
  any_blocked [] = false
  any_blocked (a ∷ others) = is_blocked_address a.address || any_blocked others

  -- The addresses of a host that is no address itself.
  abbrev pub resolved : Option (List ResolvedHostAddress) → Option (List ResolvedHostAddress)
  resolved (some (a ∷ others)) = some (a ∷ others)
  resolved _ = none

  abbrev pub addresses_of : Units → Option (List ResolvedHostAddress)
  addresses_of hostname =
      if not (net.is_ip hostname == 0)
      then some (record { address = hostname; family = net.is_ip hostname } ∷ [])
      else resolved (net.resolve_host hostname)

  module _ (options : AssertSafeWebhookUrlOptions) where
    abbrev pub check_addresses : Units → Option (List ResolvedHostAddress) → Guarded
    check_addresses hostname none = thrown dns_resolution_failed
    check_addresses hostname (some addresses) =
        if not options.allow_private_addresses && any_blocked addresses
        then thrown blocked_host
        else returned (record { hostname = hostname; resolved_addresses = addresses })

    unfoldable pub check_host : Units → Guarded
    check_host hostname =
        if units_eq (to_lower hostname) (codes "localhost") && not options.allow_private_addresses
        then thrown blocked_host
        else check_addresses hostname (addresses_of hostname)

    unfoldable pub check_url : Option Url → Guarded
    check_url none = thrown invalid_url
    check_url (some url) =
        if units_eq url.protocol (codes "https:")
        then check_host (bare_hostname url.hostname)
        else (if units_eq url.protocol (codes "http:")
            then (if options.allow_insecure_http
                then check_host (bare_hostname url.hostname)
                else thrown insecure_protocol)
            else thrown invalid_protocol)

    unfoldable pub assert_safe_webhook_url : Units → Guarded
    assert_safe_webhook_url raw_url = check_url (net.parse_url raw_url)
