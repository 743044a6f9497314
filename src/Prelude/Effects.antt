-- ===== src/Prelude/Effects.antt =====
-- Python code that mutates a state and may raise. What was written before a raise stays written,
-- so the state comes back beside an error too. The type of the exceptions is a parameter.
use mathlib.Core.Path.{◌≡◌, refl}
use mathlib.Core.Logic.{◌⊎◌, inl, inr}
use mathlib.Core.Bool.{Bool, true, false}

pub data Outcome (E A : Type 0) : Type 0 where
  ok : A → Outcome E A
  err : E → Outcome E A

abbrev pub Exec : Type 0 → Type 0 → Type 0 → Type 0
Exec E S A = S → Outcome E A × S

module _ {E S A : Type 0} where
  abbrev pub pure : A → Exec E S A
  pure a s = (ok a, s)

  abbrev pub raise : E → Exec E S A
  raise e s = (err e, s)

  abbrev pub lift : Outcome E A → Exec E S A
  lift r s = (r, s)

  abbrev pub gets : (S → A) → Exec E S A
  gets f s = (ok (f s), s)

abbrev pub modify : {E S : Type 0} → (S → S) → Exec E S (Unit {0})
modify f s = (ok tt, f s)

abbrev pub when : {E S : Type 0} → Bool → Exec E S (Unit {0}) → Exec E S (Unit {0})
when true m = m
when false m = pure tt

-- the rest of a block after its first action has returned or raised
abbrev pub continue : {E S A B : Type 0} → Outcome E A → (A → Exec E S B) → Exec E S B
continue (ok a) f s = f a s
continue (err e) f s = (err e, s)

infixl 5 ◌>>=◌ ◌>>◌
abbrev pub ◌>>=◌ : {E S A B : Type 0} → Exec E S A → (A → Exec E S B) → Exec E S B
◌>>=◌ m f s = let (r, s') = m s in continue r f s'

abbrev pub ◌>>◌ : {E S A B : Type 0} → Exec E S A → Exec E S B → Exec E S B
m >> k = m >>= λ _. k

-- A run that raised.
abbrev pub Fails : {E A : Type 0} → Outcome E A → Type 0
Fails (ok a) = ⊥
Fails (err e) = Unit

pub returned : {E : Type 0} (r : Outcome E (Unit {0})) → ¬ (Fails r) → r ≡ ok tt
returned (ok done) up = refl
returned (err e) up = absurd (up tt)

pub Outcome-cases :
    {E A : Type 0} (r : Outcome E A) → ((a : A) × (r ≡ ok a)) ⊎ ((e : E) × (r ≡ err e))
Outcome-cases (ok a) = inl (a, refl)
Outcome-cases (err e) = inr (e, refl)
