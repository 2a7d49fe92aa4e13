-- ===== src/Shared/Signature.antt =====
-- packages/shared/src/webhook-signature.ts: the signature of a webhook, which the relayer writes and the
-- merchant's server verifies, and packages/sdk/src/verify-webhook.ts. Texts are lists of code units.
-- `hmac` is HMAC-SHA256 in hexadecimal; `other` is what `Number` makes of a text that is not all digits,
-- where that is an integer of the years after 1970.
pub mod RoundTrip
use stellar_journey.Base.{
  ℕ, ◌+◌, ◌-◌, ◌*◌, ◌/◌, String, Bool, true, false, not, ◌&&◌, ◌||◌, Option, none, some, List, [],
  ◌∷◌, ◌++◌, ltb, ◌==◌, if◌then◌else◌, codes, trim, split, split_first, units_eq,
}
use stellar_journey.Base.Effect.{Result, returned, thrown}
use stellar_journey.Shared.Money.{Units, dot, is_number, to_string, value}
use stellar_journey.Shared.HexId.{hex_digit}

abbrev pub default_webhook_tolerance_seconds : ℕ
default_webhook_tolerance_seconds = 300

pub data SignatureError : Type 0 where
  malformed_header timestamp_out_of_tolerance signature_mismatch : SignatureError

pub record SignWebhookInput : Type 0 where
  pub secret : Units
  pub event_id : Units
  pub timestamp_seconds : ℕ
  pub raw_body : Units

pub record ParsedWebhookSignatureHeader : Type 0 where
  pub timestamp_seconds : ℕ
  pub event_id : Units
  pub signature : Units

pub record VerifyWebhookSignatureInput : Type 0 where
  pub raw_body : Units
  pub header : Units
  pub secret : Units
  pub tolerance_seconds : Option ℕ
  pub now : ℕ

unfoldable pub canonical_string : ℕ → Units → Units → Units
canonical_string timestamp event_id raw_body =
    to_string timestamp ++ (dot ∷ (event_id ++ (dot ∷ raw_body)))

-- A segment of the header.
abbrev pub segment : String → Units → Units
segment key val = codes key ++ (b'=' ∷ val)

-- What follows the first of a character.
unfoldable pub after : ℕ → Units → Option Units
after sep [] = none
after sep (c ∷ s) = if c == sep then some s else after sep s

abbrev pub Fields : Type 0
Fields = List (Units × Units)

abbrev pub with_field : Units → Option Units → Option Fields → Option Fields
with_field key (some val) (some fields) = some ((trim key, trim val) ∷ fields)
with_field key _ _ = none

-- `none` where a segment holds no "=".
unfoldable pub read_fields : List Units → Option Fields
read_fields [] = some []
read_fields (s ∷ segments) = with_field (split_first b'=' s) (after b'=' s) (read_fields segments)

abbrev pub or_else : Option Units → Option Units → Option Units
or_else none other = other
or_else (some val) other = some val

-- `get` of a map: the last value that was set.
unfoldable pub get_field : Units → Fields → Option Units
get_field key [] = none
get_field key ((k, val) ∷ fields) =
    or_else (get_field key fields) (if units_eq k key then some val else none)

-- `none` for an empty text too.
abbrev pub nonempty : Option Units → Option Units
nonempty (some (c ∷ s)) = some (c ∷ s)
nonempty _ = none

unfoldable pub unhex : Units → List ℕ
unhex (c ∷ d ∷ s) = pair (hex_digit c) (hex_digit d) (unhex s)
  where
    pair : Option ℕ → Option ℕ → List ℕ → List ℕ
    pair (some a) (some b) rest = (a * 16 + b) ∷ rest
    pair _ _ rest = []
unhex _ = []

module _ (hmac : Units → Units → Units) (other : Units → Option ℕ) where
  abbrev pub digest : Units → ℕ → Units → Units → Units
  digest secret timestamp event_id raw_body =
      hmac secret (canonical_string timestamp event_id raw_body)

  unfoldable pub sign_webhook_payload : SignWebhookInput → Units
  sign_webhook_payload input =
      segment "t" (to_string input.timestamp_seconds)
      ++ (b','
          ∷ (segment "id" input.event_id
              ++ (b','
                  ∷ segment "v1"
                      (digest input.secret input.timestamp_seconds input.event_id input.raw_body))))

  unfoldable pub number : Units → Option ℕ
  number s = if is_number s then some (value 0 s) else other s

  abbrev pub header_of : Option ℕ → Units → Units → Option ParsedWebhookSignatureHeader
  header_of none id v1 = none
  header_of (some timestamp) id v1 =
      some (record { timestamp_seconds = timestamp; event_id = id; signature = v1 })

  abbrev pub of_fields :
      Option Units → Option Units → Option Units → Option ParsedWebhookSignatureHeader
  of_fields (some t) (some id) (some v1) = header_of (number t) id v1
  of_fields _ _ _ = none

  abbrev pub of_map : Option Fields → Option ParsedWebhookSignatureHeader
  of_map none = none
  of_map (some fields) =
      of_fields (nonempty (get_field (codes "t") fields)) (nonempty (get_field (codes "id") fields))
        (nonempty (get_field (codes "v1") fields))

  -- `none` is the error of a malformed header.
  unfoldable pub parse_webhook_signature_header : Units → Option ParsedWebhookSignatureHeader
  parse_webhook_signature_header header = of_map (read_fields (split b',' header))

  abbrev pub or_default : Option ℕ → ℕ
  or_default none = default_webhook_tolerance_seconds
  or_default (some tolerance) = tolerance

  -- The distance of two times.
  abbrev pub apart : ℕ → ℕ → ℕ
  apart a b = (a - b) + (b - a)

  unfoldable pub check_parsed :
      VerifyWebhookSignatureInput
      → Option ParsedWebhookSignatureHeader
      → Result SignatureError ParsedWebhookSignatureHeader
  check_parsed input none = thrown malformed_header
  check_parsed input (some parsed) =
      if ltb (or_default input.tolerance_seconds) (apart input.now parsed.timestamp_seconds)
      then thrown timestamp_out_of_tolerance
      else (if not (
            units_eq
              (unhex (digest input.secret parsed.timestamp_seconds parsed.event_id input.raw_body))
              (unhex parsed.signature))
          then thrown signature_mismatch
          else returned parsed)

  unfoldable pub verify_webhook_signature :
      VerifyWebhookSignatureInput → Result SignatureError ParsedWebhookSignatureHeader
  verify_webhook_signature input = check_parsed input (parse_webhook_signature_header input.header)

  -- `verifyWebhook` of the SDK, with what it shows of a header that is verified.
  abbrev pub shown_webhook :
      Result SignatureError ParsedWebhookSignatureHeader → Result SignatureError (Units × ℕ)
  shown_webhook (returned parsed) = returned (parsed.event_id, parsed.timestamp_seconds)
  shown_webhook (thrown error) = thrown error

  unfoldable pub verify_webhook :
      Units → Units → Units → Option ℕ → ℕ → Result SignatureError (Units × ℕ)
  verify_webhook payload signature secret tolerance now = shown_webhook (
      verify_webhook_signature (record {
        raw_body = payload;
        header = signature;
        secret = secret;
        tolerance_seconds = tolerance;
        now = now;
      }))
