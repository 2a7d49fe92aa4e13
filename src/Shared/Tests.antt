-- ===== src/Shared/Tests.antt =====
-- Amounts, addresses and signatures on small inputs.
use stellar_journey.Base.{
  ℕ, ◌≤◌, ◌≡◌, refl, true, false, Option, none, some, [], ◌∷◌, arith, codes, units_eq,
  if◌then◌else◌,
}
use stellar_journey.Base.Effect.{returned}
use stellar_journey.Shared.UrlGuard.{
  ResolvedHostAddress, NetDeps, AssertSafeWebhookUrlOptions, SafeWebhookUrlInfo, dotted,
  is_private_or_reserved_ipv4, is_private_octets, to_lower, bare_hostname, is_blocked_address,
  any_blocked, check_host, check_url, assert_safe_webhook_url,
}
use stellar_journey.Shared.UrlGuard.Blocks.{
  address_of, blocked_blocks, in_any, is_private_or_reserved_ipv4_lem,
}
use stellar_journey.Shared.UrlGuard.Approval.{Approved, assert_safe_webhook_url-Approved}
use stellar_journey.Shared.Signature.{
  ParsedWebhookSignatureHeader, VerifyWebhookSignatureInput, digest, unhex, apart, or_default,
  check_parsed, parse_webhook_signature_header, verify_webhook_signature,
}
use stellar_journey.Shared.Signature.RoundTrip.{verify_webhook_signature_sound}
use stellar_journey.Shared.Money.{
  Units, zeros, take, drop, all_digits, is_number, after_dot, before_dot, value, digits_before,
  parts, decimal_to_base_units, decimal_to_positive_base_units, base_units_to_decimal_string,
}
use stellar_journey.Shared.Money.RoundTrip.{decimal_to_base_units-base_units_to_decimal_string}

-- "1.50"
printed : base_units_to_decimal_string 150 2 ≡ 49 ∷ 46 ∷ 53 ∷ 48 ∷ []
unfolding base_units_to_decimal_string take zeros digits_before drop
printed = refl

-- "1.5"
padded : decimal_to_base_units (49 ∷ 46 ∷ 53 ∷ []) 2 ≡ some 150
unfolding decimal_to_base_units parts after_dot is_number before_dot all_digits value zeros
padded = refl

-- "1."
unfinished : decimal_to_base_units (49 ∷ 46 ∷ []) 2 ≡ none
unfolding decimal_to_base_units parts after_dot is_number before_dot all_digits value zeros
unfinished = refl

-- "0.0"
nothing : decimal_to_positive_base_units (48 ∷ 46 ∷ 48 ∷ []) 2 ≡ none
unfolding decimal_to_positive_base_units decimal_to_base_units parts after_dot is_number before_dot
    all_digits value zeros
nothing = refl

decimal_to_base_units-base_units_to_decimal_string_example :
    decimal_to_base_units (base_units_to_decimal_string 150 7) 2 ≡ none
decimal_to_base_units-base_units_to_decimal_string_example =
    decimal_to_base_units-base_units_to_decimal_string 150 7 2 (omega arith)

is_private_or_reserved_ipv4_lem_example :
    is_private_or_reserved_ipv4 (dotted 172 20 0 1) ≡ in_any (address_of 172 20 0 1) blocked_blocks
is_private_or_reserved_ipv4_lem_example =
    is_private_or_reserved_ipv4_lem 172 20 0 1 (omega arith) (omega arith) (omega arith)
      (omega arith)

abbrev address : ResolvedHostAddress
address = record { address = codes "93.184.1.2"; family = 4 }

-- A net with one host, of one public address.
abbrev net : NetDeps
net = record {
  parse_url = λ raw. some (record { protocol = codes "https:"; hostname = codes "shop" });
  is_ip = λ s. if units_eq s (codes "shop") then 0 else 4;
  resolve_host = λ host. some (address ∷ []);
}

abbrev strict : AssertSafeWebhookUrlOptions
strict = record { allow_insecure_http = false; allow_private_addresses = false }

abbrev shop_info : SafeWebhookUrlInfo
shop_info = record { hostname = codes "shop"; resolved_addresses = address ∷ [] }

lets_through : assert_safe_webhook_url net strict (codes "https://shop/") ≡ returned shop_info
unfolding assert_safe_webhook_url check_url check_host units_eq to_lower any_blocked
    is_blocked_address is_private_or_reserved_ipv4 is_private_octets bare_hostname
    stellar_journey.Base.split is_number all_digits value
lets_through = refl

assert_safe_webhook_url-Approved_example : Approved net strict (codes "https://shop/") shop_info
assert_safe_webhook_url-Approved_example =
    assert_safe_webhook_url-Approved net strict (codes "https://shop/") shop_info lets_through

-- A digest that is always the same, and a number text that is never one.
abbrev hmac : Units → Units → Units
hmac secret message = codes "aa"

abbrev no_number : Units → Option ℕ
no_number s = none

abbrev received : VerifyWebhookSignatureInput
received = record {
  raw_body = codes "{}";
  header = codes "t=7,id=e1,v1=aa";
  secret = codes "s";
  tolerance_seconds = none;
  now = 9;
}

abbrev accepted : ParsedWebhookSignatureHeader
accepted = record { timestamp_seconds = 7; event_id = codes "e1"; signature = codes "aa" }

verifies : verify_webhook_signature hmac no_number received ≡ returned accepted
unfolding verify_webhook_signature check_parsed parse_webhook_signature_header
    stellar_journey.Shared.Signature.read_fields stellar_journey.Base.split
    stellar_journey.Shared.Signature.after stellar_journey.Shared.Signature.get_field units_eq
    stellar_journey.Base.trim stellar_journey.Base.trim_start stellar_journey.Base.trim_end
    stellar_journey.Base.is_space stellar_journey.Shared.Signature.number is_number all_digits value
    unhex
verifies = refl

verify_webhook_signature_sound_example :
    (parse_webhook_signature_header hmac no_number received.header ≡ some accepted)
    × (apart hmac no_number 9 7 ≤ or_default hmac no_number none)
    × (unhex (codes "aa") ≡ unhex (digest hmac no_number (codes "s") 7 (codes "e1") (codes "{}")))
verify_webhook_signature_sound_example =
    verify_webhook_signature_sound hmac no_number received accepted verifies
