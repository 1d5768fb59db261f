-- ===== src/Chain/Reorg/Walk.antt =====
-- core/chain.rs: the walk back along `prev_hash`, as `chain_from_tip` and the difficulty code do it.
use equiforge.Prelude.{
  ℕ, zero, suc, ◌+◌, Bool, false, ◌||◌, List, [], ◌∷◌, Option, none, some, bytes_eq, if◌then◌else◌,
  bytes_instance,
}
use equiforge.Prelude.Maps.{Map, get}
use equiforge.Types.{Hash256, null_hash, BlockHeader}

-- The loop of `chain_from_tip`; `none` means that the fuel ran out.
unfoldable pub walk : ℕ → Map Hash256 BlockHeader → Hash256 → Option (List Hash256)
walk zero headers current = none
walk (suc fuel) headers current = elim (get headers current) [
  | none ↦ some (current ∷ [])
  | some header ↦
      if bytes_eq header.prev_hash null_hash
      then some (current ∷ [])
      else elim (walk fuel headers header.prev_hash) [
        | none ↦ none
        | some hashes ↦ some (current ∷ hashes)
      ]
]

-- Heights fall along the walk, so the height of the first header, and two, is fuel enough.
unfoldable pub walk_fuel : Map Hash256 BlockHeader → Hash256 → ℕ
walk_fuel headers tip = elim (get headers tip) [ none ↦ 1 | some header ↦ header.height + 2 ]

walked : Option (List Hash256) → List Hash256
walked none = []
walked (some hashes) = hashes

unfoldable pub chain_from_tip : Map Hash256 BlockHeader → Hash256 → List Hash256
unfolding walk walk_fuel walked
chain_from_tip headers tip = walked (walk (walk_fuel headers tip) headers tip)

unfoldable pub contains_hash : List Hash256 → Hash256 → Bool
contains_hash [] h = false
contains_hash (k ∷ hashes) h = bytes_eq k h || contains_hash hashes h

-- The first of the new chain's hashes that the old chain has.
unfoldable pub find_in : List Hash256 → List Hash256 → Option Hash256
unfolding contains_hash
find_in old_chain [] = none
find_in old_chain (h ∷ new_chain) =
    let further = find_in old_chain new_chain in
    if contains_hash old_chain h then some h else further

-- The hashes before the fork point.
unfoldable pub until : Hash256 → List Hash256 → List Hash256
until fork_point [] = []
until fork_point (h ∷ hashes) =
    let further = until fork_point hashes in if bytes_eq h fork_point then [] else h ∷ further
