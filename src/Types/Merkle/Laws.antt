-- ===== src/Types/Merkle/Laws.antt =====
-- The loop of `compute_merkle_root` ends within its fuel, and what its padding cannot tell apart.
use equiforge.Prelude.{
  ℕ, zero, suc, ◌+◌, ◌%◌, ◌/◌, ◌*◌, inl, inr, ◌≤◌, ◌<◌, ◌≡◌, refl, sym, ◌∙◌, ap, arith, false, List,
  [], ◌∷◌, ◌++◌, map, ltb, length, some, length-append, Bool-cases, append_assoc, length-map,
  is_empty,
}
use mathlib.Core.List.{map-append}
use equiforge.Types.Data.{Hash256, Transaction, Block}
use equiforge.Types.Externals.{Externals, tx_hash}
use equiforge.Types.Merkle.{
  last_of, pad_odd, first_hash, next_level, merkle_loop, compute_merkle_root, root_of,
}

length-last_of : (h : Hash256) (hs : List Hash256) → length (last_of (h ∷ hs)) ≡ 1
unfolding last_of
length-last_of h [] = refl
length-last_of h (k ∷ hs) = length-last_of k hs

length-pad_odd : (hs : List Hash256) → length (pad_odd hs) ≡ (length hs + 1) / 2 * 2
unfolding pad_odd
length-pad_odd [] = refl
length-pad_odd (h ∷ hs) =
    ground (arith, length-append (h ∷ hs) (last_of (h ∷ hs)), length-last_of h hs)

last_of-append : (hs : List Hash256) (h : Hash256) → last_of (hs ++ h ∷ []) ≡ h ∷ []
unfolding last_of
last_of-append [] h = refl
last_of-append (a ∷ []) h = refl
last_of-append (a ∷ b ∷ hs) h = last_of-append (b ∷ hs) h

some_item :
    (ts : List Transaction) (t : Transaction) (us : List Transaction)
    → is_empty (ts ++ t ∷ us) ≡ false
some_item [] t us = refl
some_item (x ∷ ts) t us = refl

module _ (ext : Externals) where
  length-next_level : (hs : List Hash256) → length (next_level ext hs) ≡ length hs / 2
  unfolding next_level
  length-next_level [] = refl
  length-next_level (a ∷ []) = refl
  length-next_level (a ∷ b ∷ hs) = omega (arith, length-next_level hs)

  length-level : (hs : List Hash256) → length (next_level ext (pad_odd hs)) ≡ (length hs + 1) / 2
  length-level hs = omega (arith, length-next_level (pad_odd hs), length-pad_odd hs)

  -- With as much fuel as there are hashes, and some, the loop ends and gives a root.
  pub merkle_loop_total :
      (fuel : ℕ) (hs : List Hash256)
      → length hs ≤ fuel
      → 0 < fuel
      → (root : Hash256) × (merkle_loop ext fuel hs ≡ some root)
  unfolding merkle_loop
  merkle_loop_total zero hs h pos = elim pos [ ]
  merkle_loop_total (suc fuel) hs h pos = elim (Bool-cases (ltb 1 (length hs))) [
    | inl more ↦ rw more (
        merkle_loop_total fuel (next_level ext (pad_odd hs)) (ground (arith, length-level hs))
          (ground arith))
    | inr done ↦ (first_hash hs, rw done)
  ]

  merkle_loop-suc :
      (fuel : ℕ) (hs : List Hash256) (root : Hash256)
      → merkle_loop ext fuel hs ≡ some root
      → merkle_loop ext (suc fuel) hs ≡ some root
  unfolding merkle_loop
  merkle_loop-suc zero hs root h = cc
  merkle_loop-suc (suc fuel) hs root h =
      ground (arith, merkle_loop-suc fuel (next_level ext (pad_odd hs)) root)

  -- A last hash that is doubled by the padding may as well have been there twice.
  level_twice :
      (hs : List Hash256) (h : Hash256)
      → length (hs ++ h ∷ []) % 2 ≡ 1
      → pad_odd (hs ++ h ∷ h ∷ []) ≡ pad_odd (hs ++ h ∷ [])
  unfolding pad_odd
  level_twice hs h odd = ground (
    arith,
    last_of-append hs h,
    append_assoc hs (h ∷ []) (h ∷ []),
    length-append hs (h ∷ []),
    length-append hs (h ∷ h ∷ []),
  )

  loop_twice :
      (fuel : ℕ) (hs : List Hash256) (h : Hash256)
      → length (hs ++ h ∷ []) % 2 ≡ 1
      → 1 < length (hs ++ h ∷ [])
      → merkle_loop ext fuel (hs ++ h ∷ h ∷ []) ≡ merkle_loop ext fuel (hs ++ h ∷ [])
  unfolding merkle_loop
  loop_twice zero hs h odd many = refl
  loop_twice (suc fuel) hs h odd many =
      rw (level_twice hs h odd)
        (ground (arith, length-append hs (h ∷ []), length-append hs (h ∷ h ∷ [])))

  -- A block with transactions has a root by the loop, within the fuel that it is given.
  pub compute_merkle_root_total :
      (b : Block) (t : Transaction) (ts : List Transaction)
      → b.transactions ≡ t ∷ ts
      → merkle_loop ext (length b.transactions) (map (tx_hash ext) b.transactions)
        ≡ some (compute_merkle_root ext b)
  unfolding compute_merkle_root
  compute_merkle_root_total b t ts e =
      let hashes = map (tx_hash ext) b.transactions in
      let same : length hashes ≡ length b.transactions = length-map (tx_hash ext) b.transactions in
      let many : 0 < length b.transactions = rw e (omega arith) in
      let (root, found) =
        merkle_loop_total (length b.transactions) hashes (omega (arith, same)) many in
      ground (arith, e, found, same)

  root_of_loop :
      (b : Block) (ts : List Transaction)
      → is_empty ts ≡ false
      → compute_merkle_root ext (record b { transactions = ts })
        ≡ root_of (merkle_loop ext (length (map (tx_hash ext) ts)) (map (tx_hash ext) ts))
  unfolding compute_merkle_root
  root_of_loop b ts h = ground arith

  loop_twice_root :
      (hs : List Hash256) (h : Hash256)
      → length (hs ++ h ∷ []) % 2 ≡ 1
      → 1 < length (hs ++ h ∷ [])
      → merkle_loop ext (length (hs ++ h ∷ h ∷ [])) (hs ++ h ∷ h ∷ [])
        ≡ merkle_loop ext (length (hs ++ h ∷ [])) (hs ++ h ∷ [])
  loop_twice_root hs h odd many =
      let n = length (hs ++ h ∷ []) in
      let longer : length (hs ++ h ∷ h ∷ []) ≡ suc n =
        omega (arith, length-append hs (h ∷ []), length-append hs (h ∷ h ∷ [])) in
      let (root, found) = merkle_loop_total n (hs ++ h ∷ []) (omega arith) (omega arith) in
      rw longer
        (loop_twice (suc n) hs h odd many ∙ merkle_loop-suc n (hs ++ h ∷ []) root found ∙ sym found)

  -- A block whose number of transactions is odd and more than one keeps its Merkle root when its
  -- last transaction is put in a second time: the root does not fix the list of transactions.
  pub merkle_root_twice :
      (b : Block) (ts : List Transaction) (t : Transaction)
      → length (ts ++ t ∷ []) % 2 ≡ 1
      → 1 < length (ts ++ t ∷ [])
      → compute_merkle_root ext (record b { transactions = ts ++ t ∷ t ∷ [] })
        ≡ compute_merkle_root ext (record b { transactions = ts ++ t ∷ [] })
  merkle_root_twice b ts t odd many =
      let f = tx_hash ext in
      let same : length (map f ts ++ f t ∷ []) ≡ length (ts ++ t ∷ []) =
        omega (
          arith,
          length-append (map f ts) (f t ∷ []),
          length-append ts (t ∷ []),
          length-map f ts,
        ) in
      rw (root_of_loop b (ts ++ t ∷ t ∷ []) (some_item ts t (t ∷ []))) (
        rw (root_of_loop b (ts ++ t ∷ []) (some_item ts t [])) (
          ap root_of (
            rw (map-append, map-append)
              (loop_twice_root (map f ts) (f t) (rw same odd) (rw same many)))))
