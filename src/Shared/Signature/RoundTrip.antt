-- ===== src/Shared/Signature/RoundTrip.antt =====
-- A signed webhook is verified, and what a verification shows.
use stellar_journey.Base.{
  and-left, and-right, and-intro, ℕ, String, ◌≤◌, ◌<◌, ◌≡◌, ◌∙◌, refl, sym, ap, Bool, true, false,
  not, ◌&&◌, Option, none, some, [], ◌∷◌, ◌++◌, length, subst, arith, ltb, ◌==◌, if◌then◌else◌,
  codes, is_space, trim, trim_start, trim_end, split, split_first, split-++, split-lacks, lacks,
  units_eq, units_eq_iff, all_where, not-false, not-true,
}
use stellar_journey.Base.Effect.{Result, returned, thrown}
use stellar_journey.Shared.Money.{Units, is_digit, all_digits, to_string}
use stellar_journey.Shared.Money.RoundTrip.{
  all_digits-to_string, value-to_string, is_number-to_string, length-to_string,
}
use stellar_journey.Shared.Signature.{
  SignatureError, SignWebhookInput, ParsedWebhookSignatureHeader, VerifyWebhookSignatureInput,
  segment, after, read_fields, get_field, nonempty, unhex, digest, sign_webhook_payload, number,
  parse_webhook_signature_header, or_default, apart, check_parsed, verify_webhook_signature,
}

-- A character that may stand in a value of the header.
abbrev pub is_plain : ℕ → Bool
is_plain c = not (c == b',') && not (is_space c)

abbrev pub AllPlain : Units → Type 0
AllPlain s = all_where is_plain s ≡ true

digit_plain : (c : ℕ) → is_digit c ≡ true → is_plain c ≡ true
unfolding is_space
digit_plain c h = ground arith

module _ (c : ℕ) (s : Units) (h : AllPlain (c ∷ s)) where
  plain : is_plain c ≡ true
  unfolding all_where
  plain = and-left _ _ h

  plain_rest : AllPlain s
  unfolding all_where
  plain_rest = and-right _ _ h

  no_space : is_space c ≡ false
  no_space = not-true _ (and-right _ _ plain)

plain-lacks : (s : Units) → AllPlain s → lacks b',' s ≡ true
unfolding lacks
plain-lacks [] h = refl
plain-lacks (c ∷ s) h =
    and-intro _ _ (and-left _ _ (plain c s h)) (plain-lacks s (plain_rest c s h))

trim_end-plain : (s : Units) → AllPlain s → trim_end s ≡ s
unfolding trim_end
trim_end-plain [] h = refl
trim_end-plain (c ∷ []) h = rw (no_space c [] h)
trim_end-plain (c ∷ d ∷ s) h = rw (trim_end-plain (d ∷ s) (plain_rest c (d ∷ s) h))

trim-plain : (s : Units) → AllPlain s → trim s ≡ s
unfolding trim trim_start
trim-plain [] h = ap trim_start (trim_end-plain [] h)
trim-plain (c ∷ s) h = ap trim_start (trim_end-plain (c ∷ s) h) ∙ rw (no_space c s h)

digits-plain : (s : Units) → all_digits s ≡ true → AllPlain s
unfolding all_where all_digits
digits-plain [] h = refl
digits-plain (c ∷ s) h =
    and-intro _ _ (digit_plain c (and-left _ _ h)) (digits-plain s (and-right _ _ h))

nonempty_lem : (s : Units) → 0 < length s → nonempty (some s) ≡ some s
nonempty_lem [] h = absurd (omega arith)
nonempty_lem (c ∷ s) h = refl

ltb_of_le : (a b : ℕ) → b ≤ a → ltb a b ≡ false
ltb_of_le a b h = ground arith

le_of_ltb : (a b : ℕ) → ltb a b ≡ false → b ≤ a
le_of_ltb a b h = ground arith

-- A test that throws, and was passed.
passed :
    (b : Bool) (e : SignatureError) (rest : Result SignatureError ParsedWebhookSignatureHeader)
    (parsed : ParsedWebhookSignatureHeader)
    → (if b then thrown e else rest) ≡ returned parsed
    → (b ≡ false) × (rest ≡ returned parsed)
passed true e rest parsed h = absurd cc
passed false e rest parsed h = (refl, h)

abbrev KeyPlain : Units → Type 0
KeyPlain key = AllPlain (key ++ (b'=' ∷ []))

segment-plain :
    (key : String) (val : Units) → KeyPlain (codes key) → AllPlain val → AllPlain (segment key val)
unfolding all_where
segment-plain key val hk hv = of_codes (codes key) hk
  where
    of_codes : (k : Units) → KeyPlain k → AllPlain (k ++ (b'=' ∷ val))
    of_codes [] h = and-intro _ _ (and-left _ _ h) hv
    of_codes (c ∷ k) h = and-intro _ _ (and-left _ _ h) (of_codes k (and-right _ _ h))

module _ (hmac : Units → Units → Units) (other : Units → Option ℕ) where
  check_parsed_sound :
      (input : VerifyWebhookSignatureInput) (found : Option ParsedWebhookSignatureHeader)
      (parsed : ParsedWebhookSignatureHeader)
      → check_parsed hmac other input found ≡ returned parsed
      → (found ≡ some parsed)
        × (apart hmac other input.now parsed.timestamp_seconds
            ≤ or_default hmac other input.tolerance_seconds)
        × (unhex parsed.signature
            ≡ unhex (
                digest hmac other input.secret parsed.timestamp_seconds parsed.event_id
                  input.raw_body))
  unfolding check_parsed
  check_parsed_sound input none parsed h = absurd cc
  check_parsed_sound input (some p) parsed h =
      let (near, rest) = passed _ _ _ parsed h in
      let (equal, end) = passed _ _ _ parsed rest in
      let same : p ≡ parsed = cc end in
      subst
        (λ q.
          (some p ≡ some q)
          × (apart hmac other input.now q.timestamp_seconds
              ≤ or_default hmac other input.tolerance_seconds)
          × (unhex q.signature
              ≡ unhex
                  (digest hmac other input.secret q.timestamp_seconds q.event_id input.raw_body)))
        same
        (
          refl,
          le_of_ltb (or_default hmac other input.tolerance_seconds)
              (apart hmac other input.now p.timestamp_seconds) near,
          sym ((units_eq_iff _ _).0 (not-false _ equal)),
        )

  number-to_string : (n : ℕ) → number hmac other (to_string n) ≡ some n
  unfolding number
  number-to_string n = rw (is_number-to_string n) (ap some (value-to_string n))

  module _ (n : ℕ) (id v1 : Units) (id_plain : AllPlain id) (v1_plain : AllPlain v1) where
    abbrev header : Units
    header = segment "t" (to_string n) ++ (b',' ∷ (segment "id" id ++ (b',' ∷ segment "v1" v1)))

    header_split :
        split b',' header ≡ segment "t" (to_string n) ∷ segment "id" id ∷ segment "v1" v1 ∷ []
    unfolding all_where is_space
    header_split =
        split-++ b',' (segment "t" (to_string n)) (segment "id" id ++ (b',' ∷ segment "v1" v1)) (
          plain-lacks _
            (segment-plain "t" (to_string n) refl (digits-plain _ (all_digits-to_string n))))
        ∙ ap (λ r. segment "t" (to_string n) ∷ r)
            (split-++ b',' (segment "id" id) (segment "v1" v1)
                (plain-lacks _ (segment-plain "id" id refl id_plain))
              ∙ ap (λ r. segment "id" id ∷ r)
                  (split-lacks b',' (segment "v1" v1)
                    (plain-lacks _ (segment-plain "v1" v1 refl v1_plain))))

    fields_lem :
        read_fields (segment "t" (to_string n) ∷ segment "id" id ∷ segment "v1" v1 ∷ [])
        ≡ some ((codes "t", to_string n) ∷ (codes "id", id) ∷ (codes "v1", v1) ∷ [])
    unfolding read_fields split_first after trim trim_start trim_end is_space
    fields_lem = cc (
      trim-plain (to_string n) (digits-plain _ (all_digits-to_string n)),
      trim-plain id id_plain,
      trim-plain v1 v1_plain,
    )

    parse_lem :
        0 < length id
        → 0 < length v1
        → parse_webhook_signature_header hmac other header
          ≡ some (record { timestamp_seconds = n; event_id = id; signature = v1 })
    unfolding parse_webhook_signature_header get_field units_eq
    parse_lem some_id some_v1 = rw (
      header_split,
      fields_lem,
      nonempty_lem (to_string n) (length-to_string n),
      nonempty_lem id some_id,
      nonempty_lem v1 some_v1,
      number-to_string n,
    )

  -- The header that is signed verifies within the tolerance, where the event id and the digest are plain.
  pub verify-sign :
      (input : SignWebhookInput) (now : ℕ) (tolerance : Option ℕ)
      → AllPlain input.event_id
      → 0 < length input.event_id
      → let code =
          digest hmac other input.secret input.timestamp_seconds input.event_id input.raw_body in
        AllPlain code
        → 0 < length code
        → apart hmac other now input.timestamp_seconds ≤ or_default hmac other tolerance
        → verify_webhook_signature hmac other (record {
          raw_body = input.raw_body;
          header = sign_webhook_payload hmac other input;
          secret = input.secret;
          tolerance_seconds = tolerance;
          now = now;
        })
          ≡ returned (record {
            timestamp_seconds = input.timestamp_seconds;
            event_id = input.event_id;
            signature = code;
          })
  unfolding verify_webhook_signature sign_webhook_payload check_parsed
  verify-sign input now tolerance id_plain some_id code_plain some_code near =
      let code =
        digest hmac other input.secret input.timestamp_seconds input.event_id input.raw_body in
      rw (
        parse_lem input.timestamp_seconds input.event_id code id_plain code_plain some_id some_code,
        ltb_of_le (or_default hmac other tolerance) (apart hmac other now input.timestamp_seconds)
            near,
        (units_eq_iff (unhex code) (unhex code)).1 refl,
      )

  -- A header that verifies parses, its time stamp is within the tolerance of now, and its
  -- signature decodes to the bytes of the digest, under the secret, of its time stamp, its event
  -- id and the body.
  pub verify_webhook_signature_sound :
      (input : VerifyWebhookSignatureInput) (parsed : ParsedWebhookSignatureHeader)
      → verify_webhook_signature hmac other input ≡ returned parsed
      → (parse_webhook_signature_header hmac other input.header ≡ some parsed)
        × (apart hmac other input.now parsed.timestamp_seconds
            ≤ or_default hmac other input.tolerance_seconds)
        × (unhex parsed.signature
            ≡ unhex (
                digest hmac other input.secret parsed.timestamp_seconds parsed.event_id
                  input.raw_body))
  unfolding verify_webhook_signature
  verify_webhook_signature_sound input parsed h =
      of_parsed (parse_webhook_signature_header hmac other input.header) refl h
    where
      of_parsed :
          (found : Option ParsedWebhookSignatureHeader)
          → parse_webhook_signature_header hmac other input.header ≡ found
          → check_parsed hmac other input found ≡ returned parsed
          → (parse_webhook_signature_header hmac other input.header ≡ some parsed)
            × (apart hmac other input.now parsed.timestamp_seconds
                ≤ or_default hmac other input.tolerance_seconds)
            × (unhex parsed.signature
                ≡ unhex (
                    digest hmac other input.secret parsed.timestamp_seconds parsed.event_id
                      input.raw_body))
      of_parsed found is h =
          let (same, near, equal) = check_parsed_sound input found parsed h in
          (is ∙ same, near, equal)
