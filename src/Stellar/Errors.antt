-- ===== src/Stellar/Errors.antt =====
-- packages/stellar/src/errors.ts: the frozen table of contract errors and its decoders.
-- `MandateContractError` is the value of its `info` field; the message text is left out.
pub mod Lookup
use Prim.Native.String
use stellar_journey.Base.{
  String, Bool, true, false, Option, none, some, List, [], ◌∷◌, str_eq, find_where,
}
use stellar_journey.Base.Int.{ℤ, pos, negsuc, eq_ℤ}

pub record MandateErrorInfo : Type 0 where
  pub code : ℤ
  pub name : String
  pub retryable : Bool

abbrev pub entry : ℤ → String → Bool → MandateErrorInfo
entry code name retryable = record { code = code; name = name; retryable = retryable }

abbrev pub mandate_error_table : List MandateErrorInfo
mandate_error_table =
    entry (pos 1) "MandateNotFound" false
    ∷ entry (pos 2) "MandateNotActive" false
    ∷ entry (pos 3) "MandatePaused" false
    ∷ entry (pos 4) "MandateRevoked" false
    ∷ entry (pos 5) "MandateCompleted" false
    ∷ entry (pos 6) "MandateExpired" false
    ∷ entry (pos 7) "ChargeBeforeStart" false
    ∷ entry (pos 8) "ChargeTooSoon" false
    ∷ entry (pos 9) "InvalidAmount" false
    ∷ entry (pos 10) "AmountExceedsChargeLimit" false
    ∷ entry (pos 11) "AmountExceedsPeriodLimit" false
    ∷ entry (pos 12) "ChargeCountExceeded" false
    ∷ entry (pos 13) "DuplicateCharge" false
    ∷ entry (pos 14) "UnauthorizedMerchant" false
    ∷ entry (pos 15) "InsufficientAllowance" true
    ∷ entry (pos 16) "InsufficientBalance" true
    ∷ entry (pos 17) "PaymentNotFound" false
    ∷ entry (pos 18) "RefundExceedsPayment" false
    ∷ entry (pos 19) "DuplicateRefund" false
    ∷ entry (pos 20) "ArithmeticOverflow" false
    ∷ entry (pos 21) "InvalidMandateInput" false
    ∷ entry (pos 22) "DuplicateMandate" false
    ∷ entry (pos 23) "InvalidStateTransition" false
    ∷ entry (pos 24) "RefundNotFound" false
    ∷ []

abbrev pub unknown_prefix : String
unknown_prefix = "UnknownContractError("

-- `unknown` at a name; the code is -1.
unfoldable pub unknown_name : String → MandateErrorInfo
unknown_name name = entry (negsuc 0) (String.◌++◌ unknown_prefix (String.◌++◌ name ")")) false

abbrev pub or_unknown : Option MandateErrorInfo → MandateErrorInfo → MandateErrorInfo
or_unknown none fallback = fallback
or_unknown (some info) fallback = info

-- `BY_NAME.get(name)`; the names are distinct, so the first row of a name is the map's.
abbrev pub is_named : String → MandateErrorInfo → Bool
is_named name info = str_eq info.name name

unfoldable pub by_name : String → Option MandateErrorInfo
unfolding find_where
by_name name = find_where (is_named name) mandate_error_table

unfoldable pub by_code : ℤ → Option MandateErrorInfo
unfolding find_where
by_code code = find_where (λ info. eq_ℤ info.code code) mandate_error_table

unfoldable pub decode_mandate_error_name : String → MandateErrorInfo
decode_mandate_error_name name = or_unknown (by_name name) (unknown_name name)

-- `unknown` at a code: the code is kept, and its digits, the argument `shown`, stand in the name.
unfoldable pub decode_mandate_error_code : (ℤ → String) → ℤ → MandateErrorInfo
decode_mandate_error_code shown code =
    or_unknown (by_code code)
      (entry code (String.◌++◌ unknown_prefix (String.◌++◌ (shown code) ")")) false)
