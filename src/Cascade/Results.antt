-- ===== src/Cascade/Results.antt =====
-- Results in sequence: the checks of supernode/services/cascade, which return at the first error.
use supernode.Cascade.{Result, ok, failed, panicked}

module _ {A B : Type 0} where
  infixl 5 ◌>>=◌ ◌>>◌
  abbrev pub ◌>>=◌ : Result A → (A → Result B) → Result B
  ok a >>= f = f a
  failed m >>= f = failed m
  panicked >>= f = panicked

  abbrev pub ◌>>◌ : Result A → Result B → Result B
  m >> n = m >>= λ _. n
