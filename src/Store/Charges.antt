-- ===== src/Store/Charges.antt =====
-- The primary key of the charge table, and what an update of one row does to a search by key.
use stellar_journey.Base.{
  ◌≤◌, ◌≡◌, refl, ap, String, true, false, none, some, List, [], ◌∷◌, arith, str_eq, count_where,
  find_where, update_where, find_where-update, find_where-update_ne, count_where-update,
  if◌then◌else◌, Bool,
}
use stellar_journey.Store.{ChargeRequest, is_charge}

-- No two rows share a key.
abbrev pub HasUniqueIds : List ChargeRequest → Type 0
HasUniqueIds rows = (id : String) → count_where (is_charge id) rows ≤ 1

-- An update that keeps the keys.
abbrev pub KeepsId : (ChargeRequest → ChargeRequest) → Type 0
KeepsId f = (row : ChargeRequest) → (f row).id ≡ row.id

module _ (p : ChargeRequest → Bool) (f : ChargeRequest → ChargeRequest) (keeps : KeepsId f) where
  is_charge-update : (id : String) (row : ChargeRequest) → is_charge id (f row) ≡ is_charge id row
  is_charge-update id row = ap (λ key. str_eq key id) (keeps row)

  pub update-HasUniqueIds :
      (rows : List ChargeRequest) → HasUniqueIds rows → HasUniqueIds (update_where p f rows)
  update-HasUniqueIds rows unique id =
      omega (arith, unique id, count_where-update p (is_charge id) f (is_charge-update id) rows)

  pub find-update :
      (id : String) (rows : List ChargeRequest) (row : ChargeRequest)
      → find_where (is_charge id) rows ≡ some row
      → find_where (is_charge id) (update_where p f rows) ≡ some (if p row then f row else row)
  find-update id rows row e = find_where-update p (is_charge id) f (is_charge-update id) rows row e

  pub find-update_ne :
      (id : String) (rows : List ChargeRequest)
      → ((row : ChargeRequest) → is_charge id row ≡ true → p row ≡ false)
      → find_where (is_charge id) (update_where p f rows) ≡ find_where (is_charge id) rows
  find-update_ne id rows apart =
      find_where-update_ne p (is_charge id) f (is_charge-update id) apart rows

  pub find-update_none :
      (id : String) (rows : List ChargeRequest)
      → find_where (is_charge id) rows ≡ none
      → find_where (is_charge id) (update_where p f rows) ≡ none
  unfolding find_where update_where
  find-update_none id [] e = refl
  find-update_none id (row ∷ rows) e =
      ground (arith, is_charge-update id row, find-update_none id rows)
