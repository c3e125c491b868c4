-- ===== src/Prelude/Results.antt =====
-- Calls that raise: a value, or an error of the module's own.
use mathlib.Core.Path.{◌≡◌, refl}

pub data Result (E A : Type 0) : Type 0 where
  returned : A → Result E A
  failed_with : E → Result E A

module _ {E A B : Type 0} where
  infixl 10 ◌>>=◌
  abbrev pub ◌>>=◌ : Result E A → (A → Result E B) → Result E B
  returned a >>= f = f a
  failed_with e >>= f = failed_with e

  -- A chain that returned has a first part that returned.
  pub after :
      {C : Type 0} (m : Result E A) (f : A → Result E B) {b : B}
      → ((a : A) → m ≡ returned a → f a ≡ returned b → C)
      → (m >>= f) ≡ returned b
      → C
  after (returned a) f next h = next a refl h
  after (failed_with e) f next h = cc

pub returned-injective :
    {E A : Type 0} {a b : A} → ◌≡◌ {A = Result E A} (returned a) (returned b) → a ≡ b
returned-injective h = cc
