-- ===== src/Api/Routes/Isolation/Pages.antt =====
-- The shapes of the reading handlers of apps/api/src/routes, and what a filter of the store leaves of them.
use stellar_journey.Base.{
  ℕ, ◌≡◌, refl, ap, ◌∙◌, Bool, true, false, Option, none, some, List, map, filter_where, find_where,
  find_where-kept, found_passes, map-same, if◌then◌else◌,
}
use stellar_journey.Base.Effect.{returned, throw, gets, or_throw, throw_if, ◌>>=◌, ◌>>◌}
use stellar_journey.Store.{World, Fault, Job}
use stellar_journey.Api.Routes.Listing.{find_many, find_many-narrow}

-- The shapes of the handlers: a page under its limit, a page of a filter that is parsed, and what
-- follows from a row that is found.
abbrev pub page : {A : Type 0} → Bool → Fault → (World → A) → Job A
page refused e f = if refused then throw e else gets f

abbrev pub page_where : {A P : Type 0} → Bool → Fault → Fault → Option P → (P → World → A) → Job A
page_where refused e e' o f = throw_if refused e >> (or_throw o e' >>= λ p. gets (f p))

abbrev pub from_found : {A B : Type 0} → Option A → Fault → (A → Job B) → Job B
from_found o e k = or_throw o e >>= k

-- On two stores of which they read the same, they answer the same.
module _ (w w' : World) {A : Type 0} where
  pub page-same :
      (refused : Bool) (e : Fault) (f : World → A)
      → f w' ≡ f w
      → (page refused e f w').0 ≡ (page refused e f w).0
  page-same true e f same = refl
  page-same false e f same = ap returned same

  pub page_where-same :
      {P : Type 0} (refused : Bool) (e e' : Fault) (o : Option P) (f : P → World → A)
      → ((p : P) → f p w' ≡ f p w)
      → (page_where refused e e' o f w').0 ≡ (page_where refused e e' o f w).0
  page_where-same true e e' o f same = refl
  page_where-same false e e' none f same = refl
  page_where-same false e e' (some p) f same = ap returned (same p)

  pub from_found-same :
      {B : Type 0} (o : Option A) (e : Fault) (k : A → Job B)
      → ((a : A) → (k a w').0 ≡ (k a w).0)
      → (from_found o e k w').0 ≡ (from_found o e k w).0
  from_found-same none e k next = refl
  from_found-same (some a) e k next = next a

module _ (w w' : World) {A B : Type 0} (p q : A → Bool)
    (narrow : (x : A) → p x ≡ true → q x ≡ true) where
  pub found-same :
      (rows : List A) (e : Fault) (k : A → Job B)
      → ((a : A) → (k a w').0 ≡ (k a w).0)
      → (from_found (find_where p (filter_where q rows)) e k w').0
        ≡ (from_found (find_where p rows) e k w).0
  found-same rows e k next =
      ap (λ o. (from_found o e k w').0)
        (find_where-kept p q rows (λ r h. narrow r (found_passes p rows r h)))
      ∙ from_found-same w w' (find_where p rows) e k next

-- A page of the rows that a filter keeps, shown alike.
module _ {A B : Type 0} (created_at : A → ℕ) (p q : A → Bool)
    (narrow : (x : A) → p x ≡ true → q x ≡ true) where
  pub shown_page :
      (f g : A → B) (limit : ℕ) (rows : List A)
      → ((x : A) → f x ≡ g x)
      → map f (find_many created_at p limit (filter_where q rows))
        ≡ map g (find_many created_at p limit rows)
  shown_page f g limit rows agree =
      ap (map f) (find_many-narrow created_at p q narrow limit rows)
      ∙ map-same agree (find_many created_at p limit rows)
