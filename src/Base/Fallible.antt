-- ===== src/Base/Fallible.antt =====
-- Synchronous code that returns or throws a text.
use mathlib.Core.Path.{◌≡◌, refl}
use Prim.Native.String.{String}
use native.Mathlib.Omega.{arith}
use stellar_journey.Base.Effect.{Result, returned, thrown}

infixl 5 ◌>>=◌
-- What follows a step that has not thrown.
abbrev pub ◌>>=◌ : {A B : Type 0} → Result String A → (A → Result String B) → Result String B
◌>>=◌ (returned a) k = k a
◌>>=◌ (thrown message) k = thrown message

pub returned_inj :
    {A : Type 0} {a b : A} → ◌≡◌ {A = Result String A} (returned a) (returned b) → a ≡ b
returned_inj h = ground arith

pub bind_inv :
    {A B : Type 0} (m : Result String A) (k : A → Result String B) (b : B)
    → (m >>= k) ≡ returned b
    → (a : A) × ((m ≡ returned a) × (k a ≡ returned b))
bind_inv (returned a) k b h = (a, (refl, h))
bind_inv (thrown message) k b h = ground arith
