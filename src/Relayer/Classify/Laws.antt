-- ===== src/Relayer/Classify/Laws.antt =====
-- The verdict on every contract error name.
use stellar_journey.Base.{
  String, ◌≡◌, ◌↔◌, ◌⊎◌, inl, inr, none, some, arith, Option-cases, if◌then◌else◌,
}
use stellar_journey.Base.Effect.{returned, thrown}
use stellar_journey.Stellar.Errors.{MandateErrorInfo, by_name}
use stellar_journey.Stellar.Errors.Lookup.{
  by_name_lem, decode-found, decode-missing, unknown_name-starts, decode-retryable_payer,
  decode-payer_retryable,
}
use stellar_journey.Relayer.Classify.{
  permanent, transient, ClassifiedFailure, classify_contract_error_name,
}

abbrev pub IsPayerCondition : String → Type 0
IsPayerCondition name = (name ≡ "InsufficientAllowance") ⊎ (name ≡ "InsufficientBalance")

abbrev pub IsFaithful : String → ClassifiedFailure → Type 0
IsFaithful name c = (c.reason ≡ name) × ((c.failure_class ≡ transient) ↔ IsPayerCondition name)

classify_found :
    (name : String) (info : MandateErrorInfo)
    → by_name name ≡ some info
    → (c : ClassifiedFailure) × (classify_contract_error_name name ≡ returned c) × IsFaithful name c
unfolding classify_contract_error_name
classify_found name info found = (
  record { failure_class = if info.retryable then transient else permanent; reason = info.name },
  ground (arith, by_name_lem name info found, decode-found name info found),
  (
    (by_name_lem name info found).0,
    (
      ground (arith, decode-found name info found, decode-retryable_payer name),
      ground (arith, decode-found name info found, decode-payer_retryable name),
    ),
  ),
)

-- A name outside the table of contract errors throws with that name; a name of the table is
-- classified under itself, as transient exactly when it is one of the two conditions of the
-- payer's funds.
pub classify_contract_error_name_lem :
    (name : String)
    → ((by_name name ≡ none)
        × (classify_contract_error_name name ≡ thrown (record { name = name })))
      ⊎ ((c : ClassifiedFailure) × (classify_contract_error_name name ≡ returned c)
          × IsFaithful name c)
unfolding classify_contract_error_name
classify_contract_error_name_lem name = elim (Option-cases (by_name name)) [
  | inl missing ↦
      inl (missing, ground (arith, decode-missing name missing, unknown_name-starts name))
  | inr (info, found) ↦ inr (classify_found name info found)
]
