-- ===== src/Chain/Action.antt =====
-- Methods that change the chain and may fail. What was changed before an error stays changed, so
-- the state comes back beside the error too.
use equiforge.Prelude.{Result, ok, err}
use equiforge.Chain.Errors.{BlockError}

abbrev pub Action : Type 0 → Type 0 → Type 0
Action C A = C → Result BlockError A × C

module _ {C A : Type 0} where
  abbrev pub pure : A → Action C A
  pure a c = (ok a, c)

  abbrev pub raise : BlockError → Action C A
  raise e c = (err e, c)

  -- A check that reads the state alone.
  abbrev pub check : (C → Result BlockError A) → Action C A
  check f c = (f c, c)

abbrev pub modify : {C : Type 0} → (C → C) → Action C (Unit {0})
modify f c = (ok tt, f c)

module _ {C A B : Type 0} where
  abbrev pub continue : Result BlockError A → (A → Action C B) → Action C B
  continue (ok a) f c = f a c
  continue (err e) f c = (err e, c)

  infixl 5 ◌>>=◌ ◌>>◌
  abbrev pub ◌>>=◌ : Action C A → (A → Action C B) → Action C B
  ◌>>=◌ m f c = let (r, c') = m c in continue r f c'

  abbrev pub ◌>>◌ : Action C A → Action C B → Action C B
  m >> k = m >>= λ _. k
