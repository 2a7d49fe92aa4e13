-- ===== src/Api/Routes/Listing.antt =====
-- `findMany` of a table with its order, newest first, and its limit, as the list routes call it. Rows of
-- the same time, whose order the database leaves open, stand as in the table.
use stellar_journey.Base.{
  ℕ, zero, suc, ◌≤◌, ◌≡◌, ◌⊎◌, ◌∙◌, inl, inr, refl, ap, Bool, true, ◌&&◌, List, [], ◌∷◌, ◌++◌,
  arith, leb, length, filter_where, filter_where-narrow, count_where, all_where, if◌then◌else◌,
}

module _ {A : Type 0} (created_at : A → ℕ) where
  unfoldable pub insert_newest : A → List A → List A
  insert_newest row [] = row ∷ []
  insert_newest row (x ∷ xs) =
      if leb (created_at x) (created_at row) then row ∷ x ∷ xs else x ∷ insert_newest row xs

  unfoldable pub newest_first : List A → List A
  unfolding insert_newest
  newest_first [] = []
  newest_first (x ∷ xs) = insert_newest x (newest_first xs)

  unfoldable pub take : ℕ → List A → List A
  take zero xs = []
  take (suc n) [] = []
  take (suc n) (x ∷ xs) = x ∷ take n xs

  unfoldable pub find_many : (A → Bool) → ℕ → List A → List A
  unfolding newest_first take
  find_many p limit rows = take limit (newest_first (filter_where p rows))

module _ {A : Type 0} (created_at : A → ℕ) where
  -- From the newest row to the oldest.
  unfoldable pub is_sorted : List A → Bool
  is_sorted [] = true
  is_sorted (x ∷ []) = true
  is_sorted (x ∷ y ∷ xs) = leb (created_at y) (created_at x) && is_sorted (y ∷ xs)

  insert_newest_sorted :
      (row : A) (xs : List A)
      → is_sorted xs ≡ true
      → is_sorted (insert_newest created_at row xs) ≡ true
  unfolding is_sorted insert_newest
  insert_newest_sorted row [] h = refl
  insert_newest_sorted row (x ∷ []) h = ground arith
  insert_newest_sorted row (x ∷ y ∷ xs) h = ground (arith, insert_newest_sorted row (y ∷ xs))

  newest_first_sorted : (xs : List A) → is_sorted (newest_first created_at xs) ≡ true
  unfolding newest_first is_sorted
  newest_first_sorted [] = refl
  newest_first_sorted (x ∷ xs) =
      insert_newest_sorted x (newest_first created_at xs) (newest_first_sorted xs)

  count_where-insert :
      (q : A → Bool) (row : A) (xs : List A)
      → count_where q (insert_newest created_at row xs) ≡ count_where q (row ∷ xs)
  unfolding count_where insert_newest
  count_where-insert q row [] = refl
  count_where-insert q row (x ∷ xs) = ground (arith, count_where-insert q row xs)

  count_where-newest_first :
      (q : A → Bool) (xs : List A) → count_where q (newest_first created_at xs) ≡ count_where q xs
  unfolding count_where newest_first
  count_where-newest_first q [] = refl
  count_where-newest_first q (x ∷ xs) =
      ground
        (arith, count_where-insert q x (newest_first created_at xs), count_where-newest_first q xs)

  count_where-filter :
      (p q : A → Bool) (xs : List A)
      → count_where q (filter_where p xs) ≡ count_where (λ x. p x && q x) xs
  unfolding count_where filter_where
  count_where-filter p q [] = refl
  count_where-filter p q (x ∷ xs) = ground (arith, count_where-filter p q xs)

  -- The rows behind the first `n`.
  unfoldable pub drop : ℕ → List A → List A
  drop zero xs = xs
  drop (suc n) [] = []
  drop (suc n) (x ∷ xs) = drop n xs

  take-drop : (n : ℕ) (xs : List A) → take created_at n xs ++ drop n xs ≡ xs
  unfolding take drop
  take-drop zero xs = refl
  take-drop (suc n) [] = refl
  take-drop (suc n) (x ∷ xs) = ap (λ l. x ∷ l) (take-drop n xs)

  length-take : (n : ℕ) (xs : List A) → length (take created_at n xs) ≤ n
  unfolding take
  length-take zero xs = omega arith
  length-take (suc n) [] = omega arith
  length-take (suc n) (x ∷ xs) = ground (arith, length-take n xs)

  take_full : (n : ℕ) (xs : List A) → (length (take created_at n xs) ≡ n) ⊎ (drop n xs ≡ [])
  unfolding take drop
  take_full zero xs = inl refl
  take_full (suc n) [] = inr refl
  take_full (suc n) (x ∷ xs) = ground (arith, take_full n xs)

  -- A page: the newest of the rows that pass, and the rows that did not fit.
  pub record IsNewest (p : A → Bool) (limit : ℕ) (rows page : List A) : Type 0 where
    pub rest : List A
    pub sorted : is_sorted (page ++ rest) ≡ true
    pub same_rows :
        (q : A → Bool) → count_where q (page ++ rest) ≡ count_where (λ x. p x && q x) rows
    pub bounded : length page ≤ limit
    pub full : (length page ≡ limit) ⊎ (rest ≡ [])

  -- A page of a list holds the first rows of a list that has, for every test, as many rows as the
  -- table has that pass the filter and the test, and that goes from the newest to the oldest; it
  -- is no longer than the limit, and is cut off only where it is full.
  pub find_many-IsNewest :
      (p : A → Bool) (limit : ℕ) (rows : List A)
      → IsNewest p limit rows (find_many created_at p limit rows)
  unfolding find_many
  find_many-IsNewest p limit rows =
      let all = newest_first created_at (filter_where p rows) in
      record {
        rest = drop limit all;
        sorted = ap is_sorted (take-drop limit all) ∙ newest_first_sorted (filter_where p rows);
        same_rows = λ q.
            ap (count_where q) (take-drop limit all)
            ∙ count_where-newest_first q (filter_where p rows)
            ∙ count_where-filter p q rows;
        bounded = length-take limit all;
        full = take_full limit all;
      }

module _ {A : Type 0} (created_at : A → ℕ) (q : A → Bool) where
  all_where-insert :
      (row : A) (xs : List A)
      → q row ≡ true
      → all_where q xs ≡ true
      → all_where q (insert_newest created_at row xs) ≡ true
  unfolding all_where insert_newest
  all_where-insert row [] r h = ground arith
  all_where-insert row (x ∷ xs) r h = ground (arith, all_where-insert row xs)

  all_where-newest_first :
      (xs : List A) → all_where q xs ≡ true → all_where q (newest_first created_at xs) ≡ true
  unfolding all_where newest_first
  all_where-newest_first [] h = refl
  all_where-newest_first (x ∷ xs) h =
      ground (arith, all_where-insert x (newest_first created_at xs), all_where-newest_first xs)

  all_where-take :
      (n : ℕ) (xs : List A) → all_where q xs ≡ true → all_where q (take created_at n xs) ≡ true
  unfolding all_where take
  all_where-take zero xs h = refl
  all_where-take (suc n) [] h = refl
  all_where-take (suc n) (x ∷ xs) h = ground (arith, all_where-take n xs)

  all_where-filter :
      (p r : A → Bool)
      → ((x : A) → p x ≡ true → r x ≡ true → q x ≡ true)
      → (xs : List A) → all_where r xs ≡ true
      → all_where q (filter_where p xs) ≡ true
  unfolding all_where filter_where
  all_where-filter p r within [] h = refl
  all_where-filter p r within (x ∷ xs) h = ground (arith, within x, all_where-filter p r within xs)

  -- What holds of the rows that pass the filter holds of a page.
  pub all_where-find_many :
      (p r : A → Bool)
      → ((x : A) → p x ≡ true → r x ≡ true → q x ≡ true)
      → (limit : ℕ) (rows : List A) → all_where r rows ≡ true
      → all_where q (find_many created_at p limit rows) ≡ true
  unfolding find_many
  all_where-find_many p r within limit rows h =
      all_where-take limit (newest_first created_at (filter_where p rows))
        (all_where-newest_first (filter_where p rows) (all_where-filter p r within rows h))

module _ {A : Type 0} (created_at : A → ℕ) (p q : A → Bool)
    (narrow : (x : A) → p x ≡ true → q x ≡ true) where
  -- A page does not show what a wider filter hides.
  pub find_many-narrow :
      (limit : ℕ) (rows : List A)
      → find_many created_at p limit (filter_where q rows) ≡ find_many created_at p limit rows
  unfolding find_many
  find_many-narrow limit rows =
      ap (λ xs. take created_at limit (newest_first created_at xs))
        (filter_where-narrow p q narrow rows)
