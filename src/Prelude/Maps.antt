-- ===== src/Prelude/Maps.antt =====
-- `std::collections::HashMap` with keys of decidable equality: an association list whose order no
-- law reveals. `insert` replaces, and `remove` drops, whatever the key was bound to.
use equiforge.Prelude.Tests.{Eq, ◌==◌, if◌then◌else◌}
use mathlib.Core.Path.{◌≡◌}
use mathlib.Core.Bool.{Bool, true, false}
use mathlib.Core.List.{List, [], ◌∷◌}
use mathlib.Core.Option.{Option, none, some}
use native.Mathlib.Omega.{arith}

abbrev pub Map : Type 0 → Type 0 → Type 0
Map K V = List (K × V)

module _ {K V : Type 0} ⦃e : Eq K⦄ where
  unfoldable pub get : Map K V → K → Option V
  get [] k = none
  get ((j, v) ∷ m) k = if j == k then some v else get m k

  unfoldable pub remove : K → Map K V → Map K V
  remove k [] = []
  remove k ((j, v) ∷ m) = let others = remove k m in if j == k then others else (j, v) ∷ others

  unfoldable pub insert : K → V → Map K V → Map K V
  unfolding remove
  insert k v m = (k, v) ∷ remove k m

  abbrev pub contains_key : Map K V → K → Bool
  contains_key m k = elim (get m k) [ none ↦ false | some _ ↦ true ]

  pub get-remove : (k j : K) (m : Map K V) → get (remove k m) j ≡ (if k == j then none else get m j)
  unfolding get remove
  get-remove k j [] = ground arith
  get-remove k j ((i, v) ∷ m) =
      ground (arith, get-remove k j m, e.beq_iff i k, e.beq_iff i j, e.beq_iff k j)

  pub get-insert :
      (k j : K) (v : V) (m : Map K V) → get (insert k v m) j ≡ (if k == j then some v else get m j)
  unfolding get insert
  get-insert k j v m = ground (arith, get-remove k j m)

  pub get-insert_self : (k : K) (v : V) (m : Map K V) → get (insert k v m) k ≡ some v
  get-insert_self k v m = ground (arith, get-insert k k v m, e.beq_iff k k)

  -- Every key is bound once, as in every `HashMap`.
  abbrev pub HasOnce : Map K V → Type 0
  HasOnce [] = Unit
  HasOnce ((k, _) ∷ m) = (get m k ≡ none) × HasOnce m
