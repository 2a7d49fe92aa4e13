-- ===== src/Base/Effect/Inversion.antt =====
-- What a run that returned says of its steps.
use mathlib.Core.Path.{◌≡◌, refl}
use mathlib.Core.Bool.{Bool, true, false}
use mathlib.Core.Option.{Option, none, some}
use stellar_journey.Base.Effect.{
  Result, returned, thrown, Run, and_then, throw_if, or_throw, settle,
}

module _ {W F A B : Type 0} where
  pub and_then_inv :
      (k : A → Run W F B) (r : Result F A × W) {b : B} {w' : W}
      → and_then k r ≡ (returned b, w')
      → (a : A) × (w : W) × (r ≡ (returned a, w)) × (k a w ≡ (returned b, w'))
  and_then_inv k (returned a, w) h = (a, w, refl, h)
  and_then_inv k (thrown e, w) h = absurd cc

  pub or_throw_inv :
      (k : A → Run W F B) (o : Option A) (e : F) (w : W) {b : B} {w' : W}
      → and_then k (or_throw o e w) ≡ (returned b, w')
      → (a : A) × (o ≡ some a) × (k a w ≡ (returned b, w'))
  or_throw_inv k none e w h = absurd cc
  or_throw_inv k (some a) e w h = (a, refl, h)

module _ {W F B : Type 0} where
  pub throw_if_inv :
      (k : Unit {0} → Run W F B) (t : Bool) (e : F) (w : W) {b : B} {w' : W}
      → and_then k (throw_if t e w) ≡ (returned b, w')
      → (t ≡ false) × (k tt w ≡ (returned b, w'))
  throw_if_inv k true e w h = absurd cc
  throw_if_inv k false e w h = (refl, h)

  pub settle_inv :
      (before : W) (r : Result F B × W) {b : B} {w' : W}
      → settle before r ≡ (returned b, w')
      → r ≡ (returned b, w')
  settle_inv before (returned b, w) h = h
  settle_inv before (thrown e, w) h = absurd cc
