-- ===== src/Relayer/Indexer/Fetch/Highest.antt =====
-- The highest ledger of a page (packages/stellar/src/events.ts, `pageMaxLedger`).
use stellar_journey.Base.{
  ℕ, ◌≤◌, ◌≡◌, ◌⊎◌, refl, ap, subst, Bool, Option, none, some, List, [], ◌∷◌, arith, ltb, ◌==◌,
  Bool-cases, inl, inr, count_where,
}
use stellar_journey.Client.Events.{EventResponse}
use stellar_journey.Relayer.Indexer.Fetch.{raised}

module _ {ScVal : Type 0} where
  abbrev pub is_above : ℕ → EventResponse ScVal → Bool
  is_above ledger raw = ltb ledger raw.ledger

  abbrev pub is_in : ℕ → EventResponse ScVal → Bool
  is_in ledger raw = raw.ledger == ledger

  -- The highest ledger of a page, which an empty page has not.
  abbrev pub IsHighest : Option ℕ → List (EventResponse ScVal) → Type 0
  IsHighest none raws = raws ≡ []
  IsHighest (some ledger) raws =
      (count_where (is_above ledger) raws ≡ 0) × (1 ≤ count_where (is_in ledger) raws)

  -- The loop raises the ledger over the page.
  unfoldable pub raised_over : Option ℕ → List (EventResponse ScVal) → Option ℕ
  raised_over highest [] = highest
  raised_over highest (raw ∷ raws) = raised_over (raised highest raw.ledger) raws

  highest_from :
      (ledger : ℕ) (raws : List (EventResponse ScVal))
      → (last : ℕ) × ((raised_over (some ledger) raws ≡ some last)
          × ((ledger ≤ last)
              × ((count_where (is_above last) raws ≡ 0)
                  × ((last ≡ ledger) ⊎ (1 ≤ count_where (is_in last) raws)))))
  unfolding raised_over count_where
  highest_from ledger [] = (ledger, (refl, (omega arith, (refl, inl refl))))
  highest_from ledger (raw ∷ raws) = elim (Bool-cases (ltb ledger raw.ledger)) [
    | inl above ↦
        (let (last, (e, (up, (none_above, reached)))) = highest_from raw.ledger raws in
          (
            last,
            (
              rw above e,
              (
                ground (arith, above, up),
                (ground (arith, up, none_above), ground (arith, reached)),
              ),
            ),
          ))
    | inr below ↦
        (let (last, (e, (up, (none_above, reached)))) = highest_from ledger raws in
          (
            last,
            (rw below e, (up, (ground (arith, up, below, none_above), ground (arith, reached)))),
          ))
  ]

  pub raised_over-IsHighest :
      (raws : List (EventResponse ScVal)) → IsHighest (raised_over none raws) raws
  unfolding raised_over count_where
  raised_over-IsHighest [] = refl
  raised_over-IsHighest (raw ∷ raws) =
      let (last, (e, (up, (none_above, reached)))) = highest_from raw.ledger raws in
      rw e (ground (arith, up, none_above), ground (arith, reached))

  above_of_reached :
      (n m : ℕ) (raws : List (EventResponse ScVal))
      → 1 ≤ count_where (is_in n) raws
      → count_where (is_above m) raws ≡ 0
      → n ≤ m
  unfolding count_where
  above_of_reached n m [] reached none_above = omega (arith, reached)
  above_of_reached n m (raw ∷ raws) reached none_above = elim (Bool-cases (raw.ledger == n)) [
    | inl here ↦ ground (arith, here, none_above)
    | inr away ↦
        above_of_reached n m raws (ground (arith, reached, away)) (ground (arith, none_above))
  ]

  -- A page has one highest ledger.
  pub IsHighest-unique :
      (a b : Option ℕ) (raws : List (EventResponse ScVal))
      → IsHighest a raws
      → IsHighest b raws
      → a ≡ b
  unfolding count_where
  IsHighest-unique none none raws h k = refl
  IsHighest-unique none (some m) raws h k =
      absurd (no_ledger m (subst (λ r. 1 ≤ count_where (is_in m) r) h k.1))
    where
      no_ledger : (m : ℕ) → 1 ≤ count_where (is_in m) [] → ⊥
      no_ledger m e = omega (arith, e)
  IsHighest-unique (some n) none raws h k =
      absurd (no_ledger (subst (λ r. 1 ≤ count_where (is_in n) r) k h.1))
    where
      no_ledger : 1 ≤ count_where (is_in n) [] → ⊥
      no_ledger e = omega (arith, e)
  IsHighest-unique (some n) (some m) raws h k =
      let up = above_of_reached n m raws h.1 k.0 in
      let down = above_of_reached m n raws k.1 h.0 in ap some (omega (arith, up, down))
