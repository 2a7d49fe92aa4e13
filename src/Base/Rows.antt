-- ===== src/Base/Rows.antt =====
-- Tables as lists of rows: search, conditional update and count, as the database client has them.
use Prim.Native.Nat.{ℕ, zero, suc, ◌≤◌}
use mathlib.Core.Path.{◌≡◌, refl}
use mathlib.Core.Logic.{inl, inr}
use mathlib.Core.Bool.{Bool, true, false, ◌&&◌}
use mathlib.Core.Option.{Option, none, some}
use mathlib.Core.List.{List, [], ◌∷◌, map}
use native.Mathlib.Omega.{arith}
use stellar_journey.Base.Tests.{if◌then◌else◌, Bool-cases}

module _ {ℓ} {A : Type ℓ} where
  abbrev pub length : List A → ℕ
  length [] = 0
  length (x ∷ xs) = suc (length xs)

  abbrev pub get_elem? : List A → ℕ → Option A
  get_elem? [] i = none
  get_elem? (x ∷ xs) zero = some x
  get_elem? (x ∷ xs) (suc i) = get_elem? xs i

  -- `findFirst` and `findUnique`.
  unfoldable pub find_where : (A → Bool) → List A → Option A
  find_where p [] = none
  find_where p (x ∷ xs) = if p x then some x else find_where p xs

  -- `count`.
  unfoldable pub count_where : (A → Bool) → List A → ℕ
  count_where p [] = 0
  count_where p (x ∷ xs) = if p x then suc (count_where p xs) else count_where p xs

  -- `updateMany`, without the count that it returns.
  unfoldable pub update_where : (A → Bool) → (A → A) → List A → List A
  update_where p f [] = []
  update_where p f (x ∷ xs) = (if p x then f x else x) ∷ update_where p f xs

  -- `findMany`.
  unfoldable pub filter_where : (A → Bool) → List A → List A
  filter_where p [] = []
  filter_where p (x ∷ xs) = if p x then x ∷ filter_where p xs else filter_where p xs

  -- `every`.
  unfoldable pub all_where : (A → Bool) → List A → Bool
  all_where p [] = true
  all_where p (x ∷ xs) = p x && all_where p xs

module _ {ℓ} {A : Type ℓ} (p q : A → Bool) (f : A → A) where
  -- An update that leaves its own filter leaves no row that passes it.
  pub count_where-update_self :
      ((x : A) → p x ≡ true → p (f x) ≡ false)
      → (xs : List A) → count_where p (update_where p f xs) ≡ 0
  unfolding count_where update_where
  count_where-update_self leaves [] = refl
  count_where-update_self leaves (x ∷ xs) =
      ground (arith, leaves x, count_where-update_self leaves xs)

  -- A row that passes another test is found as before, if no row that passes it is updated.
  pub find_where-update_ne :
      ((x : A) → q (f x) ≡ q x)
      → ((x : A) → q x ≡ true → p x ≡ false)
      → (xs : List A) → find_where q (update_where p f xs) ≡ find_where q xs
  unfolding find_where update_where
  find_where-update_ne same apart [] = refl
  find_where-update_ne same apart (x ∷ xs) =
      ground (arith, same x, apart x, find_where-update_ne same apart xs)

  -- The row that is found, updated.
  pub find_where-update :
      ((x : A) → q (f x) ≡ q x)
      → (xs : List A) (r : A) → find_where q xs ≡ some r
      → find_where q (update_where p f xs) ≡ some (if p r then f r else r)
  unfolding find_where update_where
  find_where-update same [] r e = ground arith
  find_where-update same (x ∷ xs) r e = ground (arith, same x, find_where-update same xs r)

  -- The update keeps the number of rows that pass a test which it does not change.
  pub count_where-update :
      ((x : A) → q (f x) ≡ q x)
      → (xs : List A) → count_where q (update_where p f xs) ≡ count_where q xs
  unfolding count_where update_where
  count_where-update same [] = refl
  count_where-update same (x ∷ xs) = ground (arith, same x, count_where-update same xs)

module _ {ℓ} {A : Type ℓ} (q : A → Bool) where
  pub count_where_of_none : (xs : List A) → find_where q xs ≡ none → count_where q xs ≡ 0
  unfolding count_where find_where
  count_where_of_none [] e = refl
  count_where_of_none (x ∷ xs) e = ground (arith, count_where_of_none xs)

  pub none_of_count_where : (xs : List A) → count_where q xs ≡ 0 → find_where q xs ≡ none
  unfolding count_where find_where
  none_of_count_where [] e = refl
  none_of_count_where (x ∷ xs) e = ground (arith, none_of_count_where xs)

  pub found_passes : (xs : List A) (r : A) → find_where q xs ≡ some r → q r ≡ true
  unfolding find_where
  found_passes [] r e = ground arith
  found_passes (x ∷ xs) r e = ground (arith, found_passes xs r)

  pub count_where_of_found : (xs : List A) (r : A) → find_where q xs ≡ some r → 1 ≤ count_where q xs
  unfolding count_where find_where
  count_where_of_found [] r e = ground arith
  count_where_of_found (x ∷ xs) r e = ground (arith, count_where_of_found xs r)

  -- A test that every row passes is passed by the row that is found.
  pub found-all_where :
      (p : A → Bool) (xs : List A) (r : A)
      → all_where p xs ≡ true
      → find_where q xs ≡ some r
      → p r ≡ true
  unfolding all_where find_where
  found-all_where p [] r h e = ground arith
  found-all_where p (x ∷ xs) r h e = ground (arith, found-all_where p xs r)

module _ {ℓ} {A : Type ℓ} (p q : A → Bool) where
  -- A search in the rows of a filter.
  pub find_where-filter_where :
      (xs : List A) → find_where p (filter_where q xs) ≡ find_where (λ x. q x && p x) xs
  unfolding find_where filter_where
  find_where-filter_where [] = refl
  find_where-filter_where (x ∷ xs) = ground (arith, find_where-filter_where xs)

  -- Where the row that is found passes a filter, the filter does not hide it, and shows no other.
  pub find_where-kept :
      (xs : List A)
      → ((r : A) → find_where p xs ≡ some r → q r ≡ true)
      → find_where p (filter_where q xs) ≡ find_where p xs
  unfolding find_where filter_where
  find_where-kept [] kept = refl
  find_where-kept (x ∷ xs) kept = ground (arith, kept x, find_where-kept xs)

module _ {ℓ} {A : Type ℓ} (p q : A → Bool) (narrow : (x : A) → p x ≡ true → q x ≡ true) where
  pub filter_where-narrow : (xs : List A) → filter_where p (filter_where q xs) ≡ filter_where p xs
  unfolding filter_where
  filter_where-narrow [] = refl
  filter_where-narrow (x ∷ xs) = ground (arith, narrow x, filter_where-narrow xs)

  pub count_where-le : (xs : List A) → count_where p xs ≤ count_where q xs
  unfolding count_where
  count_where-le [] = omega arith
  count_where-le (x ∷ xs) = ground (arith, narrow x, count_where-le xs)

  -- With one row of an identity at most, a narrower test counts that row, or none.
  pub count_where_of_unique :
      (xs : List A) (r : A)
      → count_where q xs ≤ 1
      → find_where q xs ≡ some r
      → count_where p xs ≡ (if p r then 1 else 0)
  unfolding count_where find_where
  count_where_of_unique [] r u e = ground arith
  count_where_of_unique (x ∷ xs) r u e = elim (Bool-cases (q x)) [
    | inl here ↦ ground (arith, narrow x, count_where-le xs)
    | inr later ↦ ground (arith, narrow x, count_where_of_unique xs r)
  ]

module _ {ℓ} {A : Type ℓ} (p q : A → Bool) (narrow : (x : A) → p x ≡ true → q x ≡ true) where
  -- With one row of an identity at most, the row that a narrower search finds is that of the identity.
  pub find_where_of_unique :
      (xs : List A) (r : A)
      → count_where q xs ≤ 1
      → find_where p xs ≡ some r
      → find_where q xs ≡ some r
  unfolding count_where find_where
  find_where_of_unique [] r u e = ground arith
  find_where_of_unique (x ∷ xs) r u e = ground (
    arith,
    narrow x,
    count_where-le p q narrow xs,
    count_where_of_found p xs r,
    find_where_of_unique xs r,
  )

module _ {ℓ} {A : Type ℓ} (p : A → Bool) (f : A → A) where
  -- Where no row passes, an update changes nothing.
  pub update_where_of_zero : (xs : List A) → count_where p xs ≡ 0 → update_where p f xs ≡ xs
  unfolding count_where update_where
  update_where_of_zero [] e = refl
  update_where_of_zero (x ∷ xs) e = ground (arith, update_where_of_zero xs)

module _ {ℓ} {A B : Type ℓ} (q : A → Bool) (f g : A → B) where
  -- Two functions that agree on the rows of a list.
  pub map-agree :
      (xs : List A)
      → all_where q xs ≡ true
      → ((x : A) → q x ≡ true → f x ≡ g x)
      → map f xs ≡ map g xs
  unfolding all_where
  map-agree [] h agree = refl
  map-agree (x ∷ xs) h agree = ground (arith, agree x, map-agree xs)

module _ {ℓ} {A B : Type ℓ} {f g : A → B} (agree : (x : A) → f x ≡ g x) where
  pub map-same : (xs : List A) → map f xs ≡ map g xs
  map-same [] = refl
  map-same (x ∷ xs) = ground (arith, agree x, map-same xs)

module _ {ℓ} {A : Type ℓ} (p : A → Bool) where
  pub all_where-added :
      (x : A) (xs : List A) → p x ≡ true → all_where p xs ≡ true → all_where p (x ∷ xs) ≡ true
  unfolding all_where
  all_where-added x xs here there = ground arith

module _ {ℓ} {A : Type ℓ} (p q : A → Bool) where
  pub all_where-wider :
      ((x : A) → p x ≡ true → q x ≡ true)
      → (xs : List A) → all_where p xs ≡ true
      → all_where q xs ≡ true
  unfolding all_where
  all_where-wider wider [] h = refl
  all_where-wider wider (x ∷ xs) h = ground (arith, wider x, all_where-wider wider xs)

  -- An update of rows that keeps a test of every row.
  pub all_where-update :
      (f : A → A)
      → ((x : A) → p (f x) ≡ p x)
      → (xs : List A) → all_where p (update_where q f xs) ≡ all_where p xs
  unfolding all_where update_where
  all_where-update f same [] = refl
  all_where-update f same (x ∷ xs) = ground (arith, same x, all_where-update f same xs)
