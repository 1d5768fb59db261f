-- ===== src/Network/Sync/Chunks.antt =====
-- Lists cut into chunks, and the requests made of them.
use equiforge.Prelude.{
  ℕ, zero, suc, ◌≤◌, ◌<◌, ◌≡◌, refl, sym, arith, List, [], ◌∷◌, ◌++◌, length, length-drop,
  length-take, drop, take-append-drop, All, map, append_assoc,
}
use equiforge.Types.{Hash256}
use equiforge.Network.Message.{NetMessage, get_block_data}
use equiforge.Network.Serve.Laws.{IsSmall}
use equiforge.Network.Sync.{chunks_in}

abbrev pub joined : {A : Type 0} → List (List A) → List A
joined [] = []
joined (xs ∷ xss) = xs ++ joined xss

-- The chunks are the list, cut: no item is lost where there are rounds enough.
pub joined-chunks_in :
    {A : Type 0} (rounds size : ℕ) (xs : List A)
    → length xs ≤ rounds
    → 0 < size
    → joined (chunks_in rounds size xs) ≡ xs
unfolding chunks_in
joined-chunks_in rounds size [] h pos = refl
joined-chunks_in zero size (x ∷ xs) h pos = absurd (omega arith)
joined-chunks_in (suc rounds) size (x ∷ xs) h pos =
    let shorter : length (drop size (x ∷ xs)) ≤ rounds = omega (arith, length-drop size (x ∷ xs)) in
    rw (joined-chunks_in rounds size (drop size (x ∷ xs)) shorter pos)
      (take-append-drop size (x ∷ xs))

pub chunks_in-short :
    {A : Type 0} (rounds size : ℕ) (xs : List A)
    → All (λ (c : List A). length c ≤ size) (chunks_in rounds size xs)
unfolding chunks_in
chunks_in-short rounds size [] = tt
chunks_in-short zero size (x ∷ xs) = tt
chunks_in-short (suc rounds) size (x ∷ xs) =
    (omega (arith, length-take size (x ∷ xs)), chunks_in-short rounds size (drop size (x ∷ xs)))

pub map-IsSmall :
    (cs : List (List Hash256))
    → All (λ (c : List Hash256). length c ≤ 100) cs
    → All IsSmall (map (λ (c : List Hash256). get_block_data c) cs)
map-IsSmall [] h = tt
map-IsSmall (c ∷ cs) h = (h.0, map-IsSmall cs h.1)

-- The hashes of the blocks that messages ask for.
abbrev pub asked_hashes : List NetMessage → List Hash256
asked_hashes [] = []
asked_hashes (get_block_data hashes ∷ ms) = hashes ++ asked_hashes ms
asked_hashes (_ ∷ ms) = asked_hashes ms

pub asked_hashes-map :
    (cs : List (List Hash256)) (others : List NetMessage)
    → asked_hashes (map (λ (c : List Hash256). get_block_data c) cs ++ others)
      ≡ joined cs ++ asked_hashes others
asked_hashes-map [] others = refl
asked_hashes-map (c ∷ cs) others =
    rw (asked_hashes-map cs others) (sym (append_assoc c (joined cs) (asked_hashes others)))
