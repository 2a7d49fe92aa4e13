-- ===== src/Api/HttpErrors.antt =====
-- apps/api/src/errors.ts: the HTTP status of a contract error.
use stellar_journey.Base.{
  ℕ, String, Bool, true, false, ◌&&◌, not, ◌≡◌, refl, Option, none, some, List, [], ◌∷◌, str_eq,
  ◌==◌, find_where, all_where,
}
use stellar_journey.Store.{Fault, api_error}
use stellar_journey.Stellar.Errors.{MandateErrorInfo, mandate_error_table}

abbrev pub contract_error_http_status : List (String × ℕ)
contract_error_http_status =
    ("MandateNotFound", 404)
    ∷ ("MandateNotActive", 409)
    ∷ ("MandatePaused", 409)
    ∷ ("MandateRevoked", 409)
    ∷ ("MandateCompleted", 409)
    ∷ ("MandateExpired", 409)
    ∷ ("ChargeBeforeStart", 409)
    ∷ ("ChargeTooSoon", 409)
    ∷ ("InvalidAmount", 422)
    ∷ ("AmountExceedsChargeLimit", 422)
    ∷ ("AmountExceedsPeriodLimit", 422)
    ∷ ("ChargeCountExceeded", 409)
    ∷ ("DuplicateCharge", 409)
    ∷ ("UnauthorizedMerchant", 403)
    ∷ ("InsufficientAllowance", 402)
    ∷ ("InsufficientBalance", 402)
    ∷ ("PaymentNotFound", 404)
    ∷ ("RefundExceedsPayment", 422)
    ∷ ("DuplicateRefund", 409)
    ∷ ("ArithmeticOverflow", 500)
    ∷ ("InvalidMandateInput", 400)
    ∷ ("DuplicateMandate", 409)
    ∷ ("InvalidStateTransition", 409)
    ∷ ("RefundNotFound", 404)
    ∷ []

abbrev pub status_or : ℕ → Option (String × ℕ) → ℕ
status_or default none = default
status_or default (some (name, status)) = status

unfoldable pub http_status_of : String → ℕ
unfolding find_where
http_status_of name =
    status_or 502 (find_where (λ entry. str_eq entry.0 name) contract_error_http_status)

unfoldable pub mandate_error_to_api_error : MandateErrorInfo → Fault
mandate_error_to_api_error info = api_error (http_status_of info.name) info.name

-- A Boolean equivalence.
abbrev pub agrees : Bool → Bool → Bool
agrees true b = b
agrees false b = not b

-- Every name of the table of contract errors has an HTTP status of its own, which is 402 exactly
-- for the retryable ones.
pub http_status_of_lem :
    all_where
      (λ info.
        not (http_status_of info.name == 502)
        && agrees (http_status_of info.name == 402) info.retryable)
      mandate_error_table
    ≡ true
unfolding all_where http_status_of
http_status_of_lem = refl
