-- ===== src/Prelude/Raising.antt =====
-- Chains of Python expressions that may raise and assign nothing. It models no code of the
-- repository.
use cognaris_chatbot.Prelude.Effects.{Outcome, ok, err}

infixl 5 ◌>>=◌ ◌>>◌
abbrev pub ◌>>=◌ : {E A B : Type 0} → Outcome E A → (A → Outcome E B) → Outcome E B
ok a >>= f = f a
err e >>= f = err e

abbrev pub ◌>>◌ : {E A B : Type 0} → Outcome E A → Outcome E B → Outcome E B
m >> k = m >>= λ _. k
