-- ===== src/Network/Relay/Missing.antt =====
-- What a compact block is put together from, and what is asked for where that is not enough.
use equiforge.Prelude.{
  ℕ, ◌≡◌, ◌↔◌, ◌⊎◌, refl, sym, ap, ◌∙◌, arith, false, true, List, [], ◌∷◌, ◌++◌, map, none, some,
  Bytes, is_empty, ltb, append-nil, append_assoc, bytes_instance, bytes_eq, bytes_eq_iff,
  bytes_eq_refl, ◌||◌, Option-cases, Bool-cases, inl, inr,
}
use equiforge.Prelude.Maps.{get, contains_key, get-insert_self}
use equiforge.Types.{Hash256, Transaction, BlockHeader}
use equiforge.Types.Externals.{header_hash}
use equiforge.Types.Bits.{leading_zero_bits}
use equiforge.Chain.State.{Env}
use equiforge.Network.Mempool.{get_pending}
use equiforge.Network.Message.{get_transactions}
use equiforge.Network.Compact.{
  PendingCompact, place_found, all_there, or_nothing, has_hash, add_hash,
}
use equiforge.Network.Node.{NodeState, Effects}
use equiforge.Network.Relay.{
  find_pending, reconstruct, finish_compact, await_compact, on_compact_block,
}
use equiforge.Network.Relay.Sound.{reconstruct-header}

all_there-map :
    (txs : List Transaction) → all_there (map (λ (t : Transaction). some t) txs) ≡ some txs
unfolding all_there
all_there-map [] = refl
all_there-map (tx ∷ txs) = rw (all_there-map txs) refl

has_hash-add_hash :
    (x h : Hash256) (hashes : List Hash256)
    → has_hash x (add_hash h hashes) ≡ (bytes_eq h x || has_hash x hashes)
unfolding add_hash has_hash
has_hash-add_hash x h hashes = elim (Bool-cases (has_hash h hashes)) [
  | inr new ↦ rw new refl
  | inl there ↦ elim (Bool-cases (bytes_eq h x)) [
    | inr other ↦ rw (there, other) refl
    | inl same ↦ let is : h ≡ x = (bytes_eq_iff h x).0 same in rw (there, same) (rw is at there)
  ]
]

module _ {F S : Type 0} (env : Env F S) where
  -- The transactions that are found for the hashes, one by one.
  abbrev pub AreFound : List Transaction → List Hash256 → List Transaction → Type 0
  AreFound pending [] [] = Unit
  AreFound pending [] (tx ∷ txs) = ⊥
  AreFound pending (id ∷ ids) [] = ⊥
  AreFound pending (id ∷ ids) (tx ∷ txs) =
      (find_pending env id pending ≡ some tx) × AreFound pending ids txs

  -- A hash that is announced, and for which nothing is found.
  abbrev pub IsLacking : List Transaction → List Hash256 → Hash256 → Type 0
  IsLacking pending ids id = (has_hash id ids ≡ true) × (find_pending env id pending ≡ none)

  reconstruct_found :
      (pending : List Transaction) (ids : List Hash256) (txs : List Transaction)
      (pc : PendingCompact)
      → AreFound pending ids txs
      → (reconstruct env pending ids pc).txs ≡ pc.txs ++ map (λ (t : Transaction). some t) txs
  unfolding reconstruct place_found
  reconstruct_found pending [] [] pc found = sym (append-nil pc.txs)
  reconstruct_found pending [] (tx ∷ txs) pc found = absurd found
  reconstruct_found pending (id ∷ ids) [] pc found = absurd found
  reconstruct_found pending (id ∷ ids) (tx ∷ txs) pc found =
      rw (reconstruct, found.0)
        (reconstruct_found pending ids txs (place_found id (some tx) pc) found.1
          ∙ append_assoc pc.txs (some tx ∷ []) (map (λ (t : Transaction). some t) txs))

  reconstruct_missing :
      (pending : List Transaction) (ids : List Hash256) (pc : PendingCompact) (x : Hash256)
      → (has_hash x (reconstruct env pending ids pc).missing ≡ true)
        ↔ ((has_hash x pc.missing ≡ true) ⊎ IsLacking pending ids x)
  unfolding reconstruct place_found has_hash
  reconstruct_missing pending [] pc x =
      (λ h. inl h, λ o. elim o [ inl h ↦ h | inr l ↦ absurd (cc) ])
  reconstruct_missing pending (id ∷ ids) pc x = elim (Option-cases (find_pending env id pending)) [
    | inl nothing ↦
        let rest = reconstruct_missing pending ids (place_found id none pc) x in
        rw (reconstruct, nothing)
          (ground (arith, rest, has_hash-add_hash x id pc.missing, bytes_eq_iff id x, nothing))
    | inr (tx, found) ↦
        let rest = reconstruct_missing pending ids (place_found id (some tx) pc) x in
        rw (reconstruct, found) (ground (arith, rest, bytes_eq_iff id x, found))
  ]

  none_lacking :
      (pending : List Transaction) (ids : List Hash256)
      → ((x : Hash256) → IsLacking pending ids x → ⊥)
      → (txs : List Transaction) × AreFound pending ids txs
  unfolding has_hash
  none_lacking pending [] h = ([], tt)
  none_lacking pending (id ∷ ids) h =
      let (txs, others) = none_lacking pending ids (λ x l. h x (ground (arith, l.0), l.1)) in
      elim (Option-cases (find_pending env id pending)) [
        | inl nothing ↦ absurd (h id (ground (arith, bytes_eq_refl id), nothing))
        | inr (tx, found) ↦ (tx ∷ txs, (found, others))
      ]

  finish_compact_header :
      (now : ℕ) (pc pc' : PendingCompact) (txs : List Transaction) (node : NodeState F S)
      → pc.header ≡ pc'.header
      → finish_compact env now pc txs node ≡ finish_compact env now pc' txs node
  unfolding finish_compact
  finish_compact_header now pc pc' txs node e =
      ap (λ (h : BlockHeader). finish_compact env now (record pc { header = h }) txs node) e

  -- The start of a reconstruction.
  abbrev pub started : ℕ → BlockHeader → Transaction → PendingCompact
  started now header coinbase = record {
    header = header;
    txs = some coinbase ∷ [];
    index_map = [];
    missing = [];
    created_at = now;
  }

  -- The node waits: it asks for the hashes that are announced and lacking, all of them and no
  -- others, puts the block with them as the missing ones among the compact blocks that wait, and
  -- sends nothing else and changes nothing but those.
  abbrev pub IsWaiting :
      List Hash256 → BlockHeader → NodeState F S → Effects × NodeState F S → Type 0
  IsWaiting ids header node (sent, node') =
      (pc : PendingCompact) × (get node'.pending_compacts (header_hash env.ext header) ≡ some pc)
      × (pc.header ≡ header)
      × (is_empty pc.missing ≡ false)
      × ((x : Hash256)
          → (has_hash x pc.missing ≡ true) ↔ IsLacking (get_pending env node.mempool) ids x)
      × (sent
          ≡ record { replies = get_transactions pc.missing ∷ []; blocks = []; transactions = [] })
      × ((record node' { pending_compacts = node.pending_compacts }) ≡ node)

  -- A compact block that is new and has the work that it claims is tried with its header, its
  -- coinbase and the transactions of the mempool that have the announced ids, in their order, if
  -- there is one for each. Else the node asks for exactly the announced ids that it lacks, puts
  -- the block, with its header, among the compact blocks that wait, and sends nothing else and
  -- changes nothing but those.
  pub on_compact_block_asks :
      (now : ℕ) (peer : Bytes) (header : BlockHeader) (ids : List Hash256) (coinbase : Transaction)
      (node : NodeState F S)
      → contains_key node.chain.blocks (header_hash env.ext header) ≡ false
      → ltb (leading_zero_bits (header_hash env.ext header)) header.difficulty_target ≡ false
      → ((txs : List Transaction) × AreFound (get_pending env node.mempool) ids txs
          × (on_compact_block env now peer header ids coinbase node
              ≡ finish_compact env now (started now header coinbase) (coinbase ∷ txs) node))
        ⊎ IsWaiting ids header node (on_compact_block env now peer header ids coinbase node)
  unfolding on_compact_block await_compact or_nothing
  on_compact_block_asks now peer header ids coinbase node new strong =
      let pending = get_pending env node.mempool in
      let start = started now header coinbase in
      let pc = reconstruct env pending ids start in
      let lacks = reconstruct_missing pending ids start in
      elim (Bool-cases (is_empty pc.missing)) [
        | inl empty ↦
            let (txs, found) =
              none_lacking pending ids
                (λ x l. nothing_in x pc.missing empty ((lacks x).1 (inr l))) in
            let all : all_there pc.txs ≡ some (coinbase ∷ txs) =
              ap all_there (reconstruct_found pending ids txs start found)
              ∙ all_there-map (coinbase ∷ txs) in
            let done =
              ap (λ o. finish_compact env now pc (or_nothing o) node) all
              ∙ finish_compact_header now pc start (coinbase ∷ txs) node
                  (reconstruct-header env pending ids start) in
            inl (txs, found, rw (on_compact_block, new, strong, empty) done)
        | inr some_missing ↦ inr (
            rw (on_compact_block, new, strong, some_missing)
              (
                pc,
                get-insert_self (header_hash env.ext header) pc _,
                reconstruct-header env pending ids start,
                some_missing,
                λ x. (λ h. only x ((lacks x).0 h), λ l. (lacks x).1 (inr l)),
                refl,
                refl,
              ))
      ]
    where
      nothing_in :
          (x : Hash256) (hashes : List Hash256)
          → is_empty hashes ≡ true
          → has_hash x hashes ≡ true
          → ⊥
      nothing_in x [] e h = unfold has_hash in cc
      nothing_in x (y ∷ hashes) e h = cc

      only :
          (x : Hash256)
          → (has_hash x [] ≡ true) ⊎ IsLacking (get_pending env node.mempool) ids x
          → IsLacking (get_pending env node.mempool) ids x
      only x (inl h) = absurd (nothing_in x [] refl h)
      only x (inr l) = l
