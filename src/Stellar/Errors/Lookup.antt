-- ===== src/Stellar/Errors/Lookup.antt =====
-- What the decoders of packages/stellar/src/errors.ts answer.
use text.Mathlib.Text.{starts_with}
use text.Mathlib.TextPositions.{starts_with-append}
use stellar_journey.Base.{
  String, ◌≡◌, refl, ◌⊎◌, inl, inr, Bool, true, false, not, ◌||◌, ◌&&◌, none, some, arith, str_eq,
  eq_iff, all_where, found_passes, found-all_where, Option-cases,
}
use stellar_journey.Base.Int.{ℤ, eq_ℤ}
use stellar_journey.Stellar.Errors.{
  MandateErrorInfo, mandate_error_table, unknown_prefix, unknown_name, is_named, by_name, by_code,
  decode_mandate_error_name, decode_mandate_error_code,
}

-- A row of the table that says `retryable` is one of the two payer conditions.
abbrev retry_only_payer : MandateErrorInfo → Bool
retry_only_payer info =
    not info.retryable
    || str_eq info.name "InsufficientAllowance"
    || str_eq info.name "InsufficientBalance"

table_retry_only_payer : all_where retry_only_payer mandate_error_table ≡ true
unfolding all_where
table_retry_only_payer = refl

-- A name that does not look like an unknown one.
abbrev is_known : MandateErrorInfo → Bool
is_known info = not (starts_with info.name unknown_prefix)

table_known : all_where is_known mandate_error_table ≡ true
unfolding all_where
table_known = refl

pub by_name_lem :
    (name : String) (info : MandateErrorInfo)
    → by_name name ≡ some info
    → (info.name ≡ name)
      × (starts_with info.name unknown_prefix ≡ false)
      × (retry_only_payer info ≡ true)
unfolding by_name
by_name_lem name info e = (
  (eq_iff info.name name).0 (found_passes (is_named name) mandate_error_table info e),
  (ground (arith, found-all_where (is_named name) is_known mandate_error_table info table_known e)),
  found-all_where (is_named name) retry_only_payer mandate_error_table info table_retry_only_payer
      e,
)

pub unknown_name-starts :
    (name : String) → starts_with (unknown_name name).name unknown_prefix ≡ true
unfolding unknown_name
unknown_name-starts name = starts_with-append unknown_prefix _

pub decode-found :
    (name : String) (info : MandateErrorInfo)
    → by_name name ≡ some info
    → decode_mandate_error_name name ≡ info
unfolding decode_mandate_error_name
decode-found name info found = rw found

pub decode-missing :
    (name : String) → by_name name ≡ none → decode_mandate_error_name name ≡ unknown_name name
unfolding decode_mandate_error_name
decode-missing name missing = rw missing

pub decode-retryable_payer :
    (name : String)
    → (decode_mandate_error_name name).retryable ≡ true
    → (name ≡ "InsufficientAllowance") ⊎ (name ≡ "InsufficientBalance")
unfolding decode_mandate_error_name unknown_name
decode-retryable_payer name e = elim (Option-cases (by_name name)) [
  | inl missing ↦ ground arith
  | inr (info, found) ↦ ground (
    arith,
    by_name_lem name info found,
    eq_iff info.name "InsufficientAllowance",
    eq_iff info.name "InsufficientBalance",
  )
]

pub decode-payer_retryable :
    (name : String)
    → (name ≡ "InsufficientAllowance") ⊎ (name ≡ "InsufficientBalance")
    → (decode_mandate_error_name name).retryable ≡ true
unfolding decode_mandate_error_name by_name
decode-payer_retryable name (inl e) = rw e
decode-payer_retryable name (inr e) = rw e

-- However numbers are printed, decoding the name of a row of the error table gives that row's
-- name and code, and decoding its code gives its name.
pub table_decodes :
    (shown : ℤ → String)
    → all_where
        (λ info.
          str_eq (decode_mandate_error_name info.name).name info.name
          && eq_ℤ (decode_mandate_error_name info.name).code info.code
          && str_eq (decode_mandate_error_code shown info.code).name info.name)
        mandate_error_table
      ≡ true
unfolding all_where decode_mandate_error_name decode_mandate_error_code by_name by_code
table_decodes shown = refl
