-- ===== src/Miner/Search/Laws.antt =====
-- What is mined has its work, and nonces that have it are not missed.
use equiforge.Prelude.{
  ℕ, All, ◌++◌, sym, ap, ◌+◌, ◌*◌, ◌/◌, ◌%◌, ◌≤◌, ◌<◌, ◌≡◌, refl, arith, Bool, true, false,
  Bool-cases, inl, inr, List, [], ◌∷◌, Option-cases, some, nat_eq, ltb, leb, ◌&&◌, min, ◌+u64◌,
  u64_mod,
}
use native.Mathlib.Nat.{div-add-mod, div-add-mod', mod-lt, div-lt_iff_lt-mul, mul-le-mul_right}
use equiforge.Types.{Block}
use equiforge.Types.Externals.{Externals}
use equiforge.Types.Bits.{meets_difficulty}
use equiforge.Miner.Search.{
  found, with_nonce, refresh, search, mine_block, is_hit, mine_range, first_received,
  mine_block_parallel,
}
use equiforge.Miner.Search.Hits.{first_hit_sound, first_hit_finds}

module _ (ext : Externals) where
  -- A block has its work, and is the template but for the nonce and the timestamp.
  pub record IsMined (template block : Block) : Type 0 where
    pub work : meets_difficulty ext block.header ≡ true
    pub version : block.header.version ≡ template.header.version
    pub transactions : block.transactions ≡ template.transactions
    pub prev_hash : block.header.prev_hash ≡ template.header.prev_hash
    pub merkle_root : block.header.merkle_root ≡ template.header.merkle_root
    pub difficulty_target : block.header.difficulty_target ≡ template.header.difficulty_target
    pub height : block.header.height ≡ template.header.height

  IsMined-refresh :
      (now hashes nonce : ℕ) (template block : Block)
      → IsMined (refresh now hashes (with_nonce nonce template)) block
      → IsMined template block
  IsMined-refresh now hashes nonce template block h =
      elim (Bool-cases (nat_eq (hashes % 100) 0 && ltb 0 hashes)) [
        | inl due ↦
            let m = (rw due at h) in
            record {
              work = m.work;
              version = m.version;
              transactions = m.transactions;
              prev_hash = m.prev_hash;
              merkle_root = m.merkle_root;
              difficulty_target = m.difficulty_target;
              height = m.height;
            }
        | inr not_due ↦
            let m = (rw not_due at h) in
            record {
              work = m.work;
              version = m.version;
              transactions = m.transactions;
              prev_hash = m.prev_hash;
              merkle_root = m.merkle_root;
              difficulty_target = m.difficulty_target;
              height = m.height;
            }
      ]

  hit-IsMined :
      (template block : Block) (nonce : ℕ)
      → meets_difficulty ext (with_nonce nonce template).header ≡ true
      → with_nonce nonce template ≡ block
      → IsMined template block
  hit-IsMined template block nonce hit same = rw⁻¹ same (record {
    work = hit;
    version = refl;
    transactions = refl;
    prev_hash = refl;
    merkle_root = refl;
    difficulty_target = refl;
    height = refl;
  })

  search-IsMined :
      (rounds : List (Bool × ℕ)) (nonce hashes : ℕ) (template block : Block)
      → search ext rounds nonce hashes template ≡ some (found block)
      → IsMined template block
  unfolding search
  search-IsMined [] nonce hashes template block e = absurd (cc)
  search-IsMined ((stop, now) ∷ rounds) nonce hashes template block e =
      let tried = with_nonce nonce template in
      elim (Bool-cases stop) [
        | inl stopped ↦ absurd (ground arith)
        | inr going ↦ elim (Bool-cases (meets_difficulty ext tried.header)) [
          | inl hit ↦
              let same : tried ≡ block = ground arith in hit-IsMined template block nonce hit same
          | inr miss ↦ IsMined-refresh now (hashes +u64 1) nonce template block (
              search-IsMined rounds (nonce +u64 1) (hashes +u64 1)
                (refresh now (hashes +u64 1) tried) block (ground arith))
        ]
      ]

  mine_range-IsMined :
      (range nonce : ℕ) (thread : ℕ × ℕ) (template : Block)
      → thread.0 * range + range < u64_mod
      → mine_range ext range template thread ≡ some nonce
      → IsMined template (with_nonce nonce template)
  unfolding mine_range
  mine_range-IsMined range nonce (i, tries) template fits e =
      let (hit, _, _) =
        first_hit_sound (is_hit ext template) (min tries range) (i * range) nonce (omega arith) e in
      hit-IsMined template (with_nonce nonce template) nonce hit refl

  -- The ranges of all threads lie within a `u64`.
  ranges_fit :
      (threads i : ℕ)
      → i < threads
      → i * (18446744073709551615 / threads) + 18446744073709551615 / threads < u64_mod
  ranges_fit threads i small =
      let range = 18446744073709551615 / threads in
      let whole : range * threads ≤ 18446744073709551615 =
        omega (arith, div-add-mod 18446744073709551615 threads) in
      let next : (i + 1) * range ≤ threads * range = mul-le-mul_right range (omega arith) in
      omega (arith, whole, next)

  first_received-IsMined :
      (threads : ℕ) (order : List (ℕ × ℕ)) (template block : Block)
      → All (λ (thread : ℕ × ℕ). thread.0 < threads) order
      → first_received ext (18446744073709551615 / threads) template order ≡ found block
      → IsMined template block
  unfolding first_received
  first_received-IsMined threads [] template block h e = absurd (cc)
  first_received-IsMined threads (thread ∷ order) template block (small, h) e =
      let range = 18446744073709551615 / threads in
      elim (Option-cases (mine_range ext range template thread)) [
        | inl nothing ↦ first_received-IsMined threads order template block h (ground arith)
        | inr (nonce, got) ↦
            let same : with_nonce nonce template ≡ block = ground arith in
            let mined =
              mine_range-IsMined range nonce thread template (ranges_fit threads thread.0 small)
                got in
            (rw same at mined)
      ]

  -- A block that is mined, by one thread or by several, in whatever order they end, has its work,
  -- and is the template but for the nonce and the timestamp.
  pub mine_block_parallel-IsMined :
      (rounds : List (Bool × ℕ)) (threads : ℕ) (order : List (ℕ × ℕ)) (template block : Block)
      → All (λ (thread : ℕ × ℕ). thread.0 < threads) order
      → mine_block_parallel ext rounds threads order template ≡ some (found block)
      → IsMined template block
  unfolding mine_block_parallel mine_block
  mine_block_parallel-IsMined rounds threads order template block h e =
      elim (Bool-cases (leb threads 1)) [
        | inl single ↦ search-IsMined rounds 0 0 template block (ground arith)
        | inr several ↦ first_received-IsMined threads order template block h (ground arith)
      ]

  first_received_finds :
      (range nonce : ℕ) (template : Block) (front back : List (ℕ × ℕ)) (thread : ℕ × ℕ)
      → mine_range ext range template thread ≡ some nonce
      → (block : Block) × (first_received ext range template (front ++ (thread ∷ back))
          ≡ found block)
  unfolding first_received
  first_received_finds range nonce template [] back thread got =
      (with_nonce nonce template, (rw (first_received, got) refl))
  first_received_finds range nonce template (t ∷ front) back thread got =
      elim (Option-cases (mine_range ext range template t)) [
        | inl nothing ↦
            let (block, e) = first_received_finds range nonce template front back thread got in
            (block, (rw (first_received, nothing) e))
        | inr (n, hit) ↦ (with_nonce n template, (rw (first_received, hit) refl))
      ]

  -- Several threads miss no nonce below their number times their range: where the header with one
  -- has its work, and the thread that the nonce falls to tries its whole range, a block is found.
  pub mine_block_parallel_finds :
      (rounds : List (Bool × ℕ)) (threads nonce tries : ℕ) (front back : List (ℕ × ℕ))
      (template : Block)
      → 1 < threads
      → let range = 18446744073709551615 / threads in
        0 < range
        → nonce < threads * range
        → range ≤ tries
        → is_hit ext template nonce ≡ true
        → (block : Block) × (mine_block_parallel ext rounds threads
              (front ++ ((nonce / range, tries) ∷ back))
              template
            ≡ some (found block))
  unfolding mine_block_parallel mine_range
  mine_block_parallel_finds rounds threads nonce tries front back template several pos below enough
        hit =
      let range = 18446744073709551615 / threads in
      let i = nonce / range in
      let k = nonce % range in
      let split : i * range + k ≡ nonce = div-add-mod' nonce range in
      let inside : k < range = mod-lt nonce pos in
      let mine : i < threads = (div-lt_iff_lt-mul pos).1 below in
      let all : min tries range ≡ range = omega arith in
      let (n, got) =
        first_hit_finds (is_hit ext template) range (i * range) k (ranges_fit threads i mine) inside
          (rw (sym split) at hit) in
      let (block, e) = first_received_finds range n template front back (i, tries) (rw all got) in
      let more : leb threads 1 ≡ false = ground arith in
      (block, (rw (mine_block_parallel, more) (ap (λ r. some r) e)))
