-- ===== src/Base/Text.antt =====
-- Texts as the code points that a program walks.
use Prim.Native.Nat.{ℕ}
use Prim.Native.Char.{code}
use Prim.Native.String.{String}
use mathlib.Core.Path.{◌≡◌, refl, ap}
use mathlib.Core.Logic.{◌↔◌}
use mathlib.Core.Bool.{Bool, true, false, not, ◌&&◌, ◌||◌}
use mathlib.Core.List.{List, [], ◌∷◌, ◌++◌}
use native.Mathlib.Omega.{arith}
use stellar_journey.Base.Tests.{leb, ◌==◌, ==_iff, if◌then◌else◌, and-left, and-right, not-true}

abbrev pub codes : String → List ℕ
codes String.[] = []
codes (String.◌∷◌ c s) = code c ∷ codes s

-- The white space that `trim` takes away.
unfoldable pub is_space : ℕ → Bool
is_space c =
    (leb 9 c && leb c 13)
    || c == 32
    || c == 160
    || c == 0x1680
    || (leb 0x2000 c && leb c 0x200a)
    || c == 0x2028
    || c == 0x2029
    || c == 0x202f
    || c == 0x205f
    || c == 0x3000
    || c == 0xfeff

unfoldable pub trim_start : List ℕ → List ℕ
trim_start [] = []
trim_start (c ∷ s) = if is_space c then trim_start s else c ∷ s

-- White space at the end is dropped, which is all of a text that holds nothing else.
unfoldable pub trim_end : List ℕ → List ℕ
trim_end [] = []
trim_end (c ∷ s) = keep (trim_end s)
  where
    keep : List ℕ → List ℕ
    keep [] = if is_space c then [] else c ∷ []
    keep (d ∷ r) = c ∷ d ∷ r

unfoldable pub trim : List ℕ → List ℕ
trim s = trim_start (trim_end s)

-- `split` at one character: the first part, and the others.
unfoldable pub split_first : ℕ → List ℕ → List ℕ
split_first sep [] = []
split_first sep (c ∷ s) = if c == sep then [] else c ∷ split_first sep s

unfoldable pub split_rest : ℕ → List ℕ → List (List ℕ)
unfolding split_first
split_rest sep [] = []
split_rest sep (c ∷ s) = if c == sep then split_first sep s ∷ split_rest sep s else split_rest sep s

unfoldable pub split : ℕ → List ℕ → List (List ℕ)
unfolding split_rest
split sep s = split_first sep s ∷ split_rest sep s

unfoldable pub units_eq : List ℕ → List ℕ → Bool
units_eq [] [] = true
units_eq (c ∷ s) (d ∷ t) = c == d && units_eq s t
units_eq [] (d ∷ t) = false
units_eq (c ∷ s) [] = false

pub units_eq_iff : (s t : List ℕ) → (units_eq s t ≡ true) ↔ (s ≡ t)
unfolding units_eq
units_eq_iff [] [] = (λ _. refl, λ _. refl)
units_eq_iff (c ∷ s) (d ∷ t) = ground (arith, units_eq_iff s t)
units_eq_iff [] (d ∷ t) = ground arith
units_eq_iff (c ∷ s) [] = ground arith

pub ==_refl : (n : ℕ) → (n == n) ≡ true
==_refl n = (==_iff n n).1 refl

-- A text without a character.
unfoldable pub lacks : ℕ → List ℕ → Bool
lacks sep [] = true
lacks sep (c ∷ s) = not (c == sep) && lacks sep s

module _ (sep c : ℕ) (s : List ℕ) (h : lacks sep (c ∷ s) ≡ true) where
  other_head : (c == sep) ≡ false
  unfolding lacks
  other_head = not-true _ (and-left _ _ h)

  other_tail : lacks sep s ≡ true
  unfolding lacks
  other_tail = and-right _ _ h

module _ (sep : ℕ) where
  pub split_first-++ : (s t : List ℕ) → lacks sep s ≡ true → split_first sep (s ++ (sep ∷ t)) ≡ s
  unfolding split_first
  split_first-++ [] t h = rw (==_refl sep)
  split_first-++ (c ∷ s) t h =
      rw (other_head sep c s h) (ap (λ r. c ∷ r) (split_first-++ s t (other_tail sep c s h)))

  pub split_rest-++ :
      (s t : List ℕ) → lacks sep s ≡ true → split_rest sep (s ++ (sep ∷ t)) ≡ split sep t
  unfolding split_rest split
  split_rest-++ [] t h = rw (==_refl sep)
  split_rest-++ (c ∷ s) t h = rw (other_head sep c s h) (split_rest-++ s t (other_tail sep c s h))

  split_first-lacks : (s : List ℕ) → lacks sep s ≡ true → split_first sep s ≡ s
  unfolding split_first
  split_first-lacks [] h = refl
  split_first-lacks (c ∷ s) h =
      rw (other_head sep c s h) (ap (λ r. c ∷ r) (split_first-lacks s (other_tail sep c s h)))

  split_rest-lacks : (s : List ℕ) → lacks sep s ≡ true → split_rest sep s ≡ []
  unfolding split_rest
  split_rest-lacks [] h = refl
  split_rest-lacks (c ∷ s) h = rw (other_head sep c s h) (split_rest-lacks s (other_tail sep c s h))

  pub split-++ : (s t : List ℕ) → lacks sep s ≡ true → split sep (s ++ (sep ∷ t)) ≡ s ∷ split sep t
  unfolding split
  split-++ s t h = cc (split_first-++ s t h, split_rest-++ s t h)

  pub split-lacks : (s : List ℕ) → lacks sep s ≡ true → split sep s ≡ s ∷ []
  unfolding split
  split-lacks s h = cc (split_first-lacks s h, split_rest-lacks s h)
