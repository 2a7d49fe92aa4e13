-- ===== src/Api/Routes/Isolation/References.antt =====
-- The references between the rows of apps/api/src/routes: what a write of one table leaves of them.
use stellar_journey.Base.{
  ◌≤◌, ◌≡◌, inl, inr, refl, sym, subst, String, Bool, true, false, not, ◌&&◌, ◌||◌, Option, none,
  some, List, ◌∷◌, arith, str_eq, eq_iff, find_where, count_where, all_where, all_where-wider,
  find_where_of_unique, found_passes, count_where_of_none, Bool-cases,
}
use stellar_journey.Store.{World, Merchant, Product, Payment, is_product}
use stellar_journey.Api.Routes.Refunds.{is_payment}
use stellar_journey.Api.Routes.Isolation.{
  refers_within, session_within, refund_within, of_product, of_payment,
}

module _ {A : Type 0} (id_of : A → String) where
  abbrev has_id : String → A → Bool
  has_id id row = str_eq (id_of row) id

  fresh_as :
      (rows : List A) (id id' : String)
      → str_eq id id' ≡ true
      → find_where (has_id id) rows ≡ none
      → find_where (has_id id') rows ≡ none
  fresh_as rows id id' same fresh =
      subst (λ k. find_where (has_id k) rows ≡ none) ((eq_iff id id').0 same) fresh

  -- A row with a new id hides no row.
  pub find_where-added :
      (row : A) (rows : List A) (id : String)
      → find_where (has_id (id_of row)) rows ≡ none
      → (found : A) → find_where (has_id id) rows ≡ some found
      → find_where (has_id id) (row ∷ rows) ≡ some found
  unfolding find_where
  find_where-added row rows id fresh found e = elim (Bool-cases (str_eq (id_of row) id)) [
    | inl same ↦ absurd (cc (e, fresh_as rows (id_of row) id same fresh))
    | inr apart ↦ rw apart e
  ]

  pub count_where-added :
      (row : A) (rows : List A)
      → find_where (has_id (id_of row)) rows ≡ none
      → ((id : String) → count_where (has_id id) rows ≤ 1)
      → (id : String) → count_where (has_id id) (row ∷ rows) ≤ 1
  unfolding count_where
  count_where-added row rows fresh unique id = elim (Bool-cases (str_eq (id_of row) id)) [
    | inl same ↦
        rw (same, count_where_of_none (has_id id) rows (fresh_as rows (id_of row) id same fresh))
          (omega arith)
    | inr apart ↦ rw apart (unique id)
  ]

same_owner : (a b c : String) → str_eq a b ≡ true → (not (str_eq b c) || str_eq a c) ≡ true
same_owner a b c h = rw ((eq_iff a b).0 h) (ground arith)

module _ {A : Type 0} (id_of owner : A → String) (by merchant_id id : String) (rows : List A) where
  -- Where ids are unique, the row of an owner is the row of its id, and the owner's.
  pub found_within :
      (found : A)
      → count_where (has_id id_of id) rows ≤ 1
      → find_where (λ row. has_id id_of id row && str_eq (owner row) by) rows ≡ some found
      → (find_where (has_id id_of (id_of found)) rows ≡ some found)
        × ((not (str_eq by merchant_id) || str_eq (owner found) merchant_id) ≡ true)
  found_within found unique e =
      let passes : (has_id id_of id found && str_eq (owner found) by) ≡ true =
        found_passes (λ row. has_id id_of id row && str_eq (owner row) by) rows found e in
      let there : find_where (has_id id_of id) rows ≡ some found =
        find_where_of_unique (λ row. has_id id_of id row && str_eq (owner row) by) (has_id id_of id)
          (λ row h. ground arith) rows found unique e in
      (
        subst (λ k. find_where (has_id id_of k) rows ≡ some found)
            (sym ((eq_iff (id_of found) id).0 (ground arith))) there,
        same_owner (owner found) by merchant_id (ground arith),
      )

-- Every product and payment that is found in one store is found in the other.
pub record Extends (w w' : World) : Type 0 where
  pub products :
      (id : String) (product : Product)
      → find_where (is_product id) w.products ≡ some product
      → find_where (is_product id) w'.products ≡ some product
  pub payments :
      (id : String) (payment : Payment)
      → find_where (is_payment id) w.payments ≡ some payment
      → find_where (is_payment id) w'.payments ≡ some payment

module _ {A : Type 0} (mine : Option A → Bool) (absent : mine none ≡ false) where
  found_kept :
      (own : Bool) (o o' : Option A)
      → ((found : A) → o ≡ some found → o' ≡ some found)
      → (not own || mine o) ≡ true
      → (not own || mine o') ≡ true
  found_kept false o o' keeps h = refl
  found_kept true none o' keeps h = ground arith
  found_kept true (some found) o' keeps h = rw (keeps found refl) h

module _ (merchant : Merchant) (w w' : World) (extends : Extends w w') where
  -- The references hold in a store with more products and payments, for rows of which they held.
  pub refers_within-extended :
      all_where (session_within merchant w) w'.sessions ≡ true
      → all_where (refund_within merchant w) w'.refund_requests ≡ true
      → refers_within merchant w' ≡ true
  unfolding refers_within
  refers_within-extended sessions refunds =
      rw
        (
          all_where-wider (session_within merchant w) (session_within merchant w')
              (λ row.
                found_kept (of_product merchant) refl (str_eq row.merchant_id merchant.id)
                  (find_where (is_product row.product_id) w.products)
                  (find_where (is_product row.product_id) w'.products)
                  (extends.products row.product_id))
              w'.sessions sessions,
          all_where-wider (refund_within merchant w) (refund_within merchant w')
              (λ row.
                found_kept (of_payment merchant) refl (str_eq row.merchant_id merchant.id)
                  (find_where (is_payment row.payment_id) w.payments)
                  (find_where (is_payment row.payment_id) w'.payments)
                  (extends.payments row.payment_id))
              w'.refund_requests refunds,
        )
        refl
