-- ===== src/Base/Effect.antt =====
-- Asynchronous code over a shared store: a run returns or throws, and what it wrote before a throw
-- stays written, unless a transaction takes it back.
pub mod Inversion
use mathlib.Core.Bool.{Bool, true, false}
use mathlib.Core.Option.{Option, none, some}

pub data Result (F A : Type 0) : Type 0 where
  returned : A → Result F A
  thrown : F → Result F A

abbrev pub Run : Type 0 → Type 0 → Type 0 → Type 0
Run W F A = W → Result F A × W

module _ {W F A : Type 0} where
  abbrev pub pure : A → Run W F A
  pure a w = (returned a, w)

  abbrev pub throw : F → Run W F A
  throw e w = (thrown e, w)

  abbrev pub gets : (W → A) → Run W F A
  gets f w = (returned (f w), w)

  abbrev pub or_throw : Option A → F → Run W F A
  or_throw none e = throw e
  or_throw (some a) e = pure a

module _ {W F A B : Type 0} where
  -- What follows a step that has ended.
  abbrev pub and_then : (A → Run W F B) → Result F A × W → Result F B × W
  and_then k (returned a, w) = k a w
  and_then k (thrown e, w) = (thrown e, w)

  infixl 5 ◌>>=◌ ◌>>◌
  abbrev pub ◌>>=◌ : Run W F A → (A → Run W F B) → Run W F B
  ◌>>=◌ m k w = and_then k (m w)

  abbrev pub ◌>>◌ : Run W F A → Run W F B → Run W F B
  m >> k = m >>= λ _. k

  -- `try { … } catch (e) { … }`.
  abbrev pub handle : (F → Run W F B) → (A → Run W F B) → Result F A × W → Result F B × W
  handle h k (returned a, w) = k a w
  handle h k (thrown e, w) = h e w

module _ {W F : Type 0} where
  abbrev pub modify : (W → W) → Run W F (Unit {0})
  modify f w = (returned tt, f w)

  abbrev pub throw_if : Bool → F → Run W F (Unit {0})
  throw_if true e = throw e
  throw_if false e = pure tt

module _ {W F A : Type 0} where
  -- `$transaction`: a throw restores the store of the beginning.
  abbrev pub settle : W → Result F A × W → Result F A × W
  settle before (returned a, w) = (returned a, w)
  settle before (thrown e, w) = (thrown e, before)

  abbrev pub transaction : Run W F A → Run W F A
  transaction m w = settle w (m w)
