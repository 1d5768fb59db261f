-- ===== src/Chain/Reorg/Laws.antt =====
-- The walk back to genesis ends within its fuel, and the fork point is where the branches meet.
use equiforge.Prelude.{
  ℕ, zero, suc, ◌+◌, ◌<◌, ◌≡◌, ◌≢◌, ap, arith, true, false, List, [], ◌∷◌, ◌++◌, none, some,
  bytes_eq, bytes_eq_iff, bytes_instance, Bool-cases, Option-cases, inl, inr, All,
}
use equiforge.Prelude.Maps.{Map, get, insert, get-insert}
use equiforge.Types.{Hash256, BlockHeader}
use equiforge.Chain.Reorg.{walk, walk_fuel, contains_hash, find_in, until}

-- Every known header is higher than its parent, where that is known.
pub record IsLinked (headers : Map Hash256 BlockHeader) : Type 0 where
  pub rises :
      (h : Hash256) (header parent : BlockHeader)
      → get headers h ≡ some header
      → get headers header.prev_hash ≡ some parent
      → parent.height < header.height

-- The height of a header that is known, and zero otherwise, bounds the walk from it.
walk_bounded :
    (fuel : ℕ) (headers : Map Hash256 BlockHeader) (h : Hash256)
    → IsLinked headers
    → ((header : BlockHeader) → get headers h ≡ some header → header.height + 1 < fuel)
    → 0 < fuel
    → walk fuel headers h ≢ none
unfolding walk
walk_bounded zero headers h linked bound pos = absurd (omega arith)
walk_bounded (suc fuel) headers h linked bound pos = elim (Option-cases (get headers h)) [
  | inl missing ↦ ground arith
  | inr (header, found) ↦
      let further =
        walk_bounded fuel headers header.prev_hash linked
          (λ parent e. omega (arith, linked.rises h header parent found e, bound header found))
          (omega (arith, bound header found)) in
      ground arith
]

-- Where heights rise from parent to child, the loop of `chain_from_tip` ends: the fuel that it is
-- given never runs out.
pub walk_total :
    (headers : Map Hash256 BlockHeader) (tip : Hash256)
    → IsLinked headers
    → walk (walk_fuel headers tip) headers tip ≢ none
walk_total headers tip linked =
    walk_bounded (walk_fuel headers tip) headers tip linked
      (λ header e. unfold walk_fuel in ground arith) (unfold walk_fuel in ground arith)

-- A header one higher than its parent, under a hash that no known header names as its own or its
-- parent's, keeps the heights rising.
pub insert-IsLinked :
    (headers : Map Hash256 BlockHeader) (h : Hash256) (header parent : BlockHeader)
    → IsLinked headers
    → get headers header.prev_hash ≡ some parent
    → header.height ≡ parent.height + 1
    → header.prev_hash ≢ h
    → ((k : Hash256) (child : BlockHeader) → get headers k ≡ some child → child.prev_hash ≢ h)
    → IsLinked (insert h header headers)
insert-IsLinked headers h header parent linked found height own fresh = record {
  rises = λ k child p e₁ e₂. ground (
    arith,
    get-insert h k header headers,
    get-insert h child.prev_hash header headers,
    linked.rises k child p,
    fresh k child,
    bytes_eq_iff h k,
    bytes_eq_iff h child.prev_hash,
  );
}

contains_until :
    (f : Hash256) (hashes : List Hash256)
    → contains_hash hashes f ≡ true
    → (tail : List Hash256) × (hashes ≡ until f hashes ++ f ∷ tail)
unfolding contains_hash until
contains_until f [] h = absurd (cc)
contains_until f (k ∷ hashes) h = elim (Bool-cases (bytes_eq k f)) [
  | inl at ↦ (hashes, ground (arith, bytes_eq_iff k f))
  | inr before ↦
      let (tail, e) = contains_until f hashes (ground arith) in
      (tail, rw before (ap (λ t. k ∷ t) e))
]

find_until :
    (old_chain new_chain : List Hash256) (f : Hash256)
    → find_in old_chain new_chain ≡ some f
    → (contains_hash old_chain f ≡ true)
      × All (λ h. contains_hash old_chain h ≡ false) (until f new_chain)
      × ((tail : List Hash256) × (new_chain ≡ until f new_chain ++ f ∷ tail))
unfolding find_in until
find_until old_chain [] f e = absurd (cc)
find_until old_chain (k ∷ new_chain) f e = elim (Bool-cases (contains_hash old_chain k)) [
  | inl here ↦
      let same : k ≡ f = ground arith in
      let test : bytes_eq k f ≡ true = ground (arith, bytes_eq_iff k f) in
      rw test (ground arith, tt, (new_chain, ground arith))
  | inr above ↦
      let (old, news, (tail, split)) = find_until old_chain new_chain f (ground arith) in
      let test : bytes_eq k f ≡ false = ground (arith, bytes_eq_iff k f) in
      rw test (old, (above, news), (tail, ap (λ t. k ∷ t) split))
]

-- A reorganisation turns at the newest block of the new chain that the old chain has: the old chain
-- is what is disconnected, the fork point and what stays; the new chain is what is connected, none
-- of it in the old chain, the fork point and what stays.
pub fork_splits :
    (old_chain new_chain : List Hash256) (f : Hash256)
    → find_in old_chain new_chain ≡ some f
    → ((kept : List Hash256) × (old_chain ≡ until f old_chain ++ f ∷ kept))
      × ((kept : List Hash256) × (new_chain ≡ until f new_chain ++ f ∷ kept))
      × All (λ h. contains_hash old_chain h ≡ false) (until f new_chain)
fork_splits old_chain new_chain f e =
    let (old, news, split) = find_until old_chain new_chain f e in
    (contains_until f old_chain old, split, news)
