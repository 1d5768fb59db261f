-- ===== src/Pool/Miner/Laws.antt =====
-- The shares of a miner are shares for the pool.
use equiforge.Prelude.{
  ℕ, ◌≡◌, refl, ap, sym, ◌∙◌, arith, true, false, Bool-cases, inl, inr, List, [], ◌∷◌, Bytes,
  Option-cases, some, leb, ltb, ◌+u64◌, min, ◌*◌, ◌/◌, ◌%◌, u64_mod, ◌++◌, keep_last, bytes_eq,
  bytes_instance,
}
use equiforge.Prelude.Maps.{Map, get, get-insert_self}
use equiforge.Types.{Hash256, BlockHeader}
use equiforge.Types.Externals.{Externals, header_hash}
use equiforge.Types.Bits.{leading_zero_bits}
use equiforge.Chain.Difficulty.{Float}
use equiforge.Miner.Search.Hits.{first_hit_good}
use equiforge.Pool.Wire.{PoolMessage, share_accepted}
use equiforge.Pool.State.{Worker, PoolState, record_share, record_time, update_worker}
use equiforge.Pool.Share.{
  Snapshot, judge_share, credit, submit_block, solved_block, accepted_of, rate_of, count_block,
}
use equiforge.Pool.Miner.{MiningJob, hash_with, is_share, mine_part, first_share, mine_job}

update_worker-known :
    (change : Worker → Worker) (name : Bytes) (w : Worker) (workers : Map Bytes Worker)
    → get workers name ≡ some w
    → get (update_worker change name workers) name ≡ some (change w)
unfolding update_worker
update_worker-known change name w workers found =
    rw (update_worker, found) (get-insert_self name (change w) workers)

module _ (ext : Externals) where
  first_share-good :
      (work : MiningJob) (nonce_range offset : ℕ) (order : List (ℕ × ℕ)) (nonce : ℕ)
      (hash : Hash256)
      → first_share ext work nonce_range offset order ≡ some (nonce, hash)
      → (hash ≡ hash_with ext work.header nonce) × (is_share ext work nonce ≡ true)
  unfolding first_share
  first_share-good work nonce_range offset [] nonce hash e = absurd (cc)
  first_share-good work nonce_range offset ((i, tries) ∷ order) nonce hash e =
      elim (Option-cases (mine_part ext work nonce_range offset (i, tries))) [
        | inl nothing ↦ first_share-good work nonce_range offset order nonce hash (ground arith)
        | inr (n, got) ↦
            let good : is_share ext work n ≡ true =
              unfold mine_part in
              first_hit_good (is_share ext work) (min tries nonce_range)
                ((i * nonce_range) % u64_mod +u64 offset) n got in
            let same : n ≡ nonce = ground arith in
            let hashed : hash_with ext work.header n ≡ hash = ground arith in
            (sym hashed ∙ ap (hash_with ext work.header) same, (rw same at good))
      ]

  -- The pool has counted the share for the worker, at the end of the window and, where the worker
  -- is registered, among its accepted shares and their times.
  abbrev pub IsCredited : {F : Type 0} → ℕ → Bytes → Hash256 → PoolState F → PoolState F → Type 0
  IsCredited now name payout before after =
      (after.pplns_window
        ≡ keep_last before.config.pplns_window (before.pplns_window ++ (name, payout) ∷ []))
      × ((w : Worker)
          → get before.workers name ≡ some w
          → (w' : Worker) × (get after.workers name ≡ some w')
            × (w'.shares_accepted ≡ w.shares_accepted +u64 1)
            × (w'.recent_share_times ≡ keep_last 120 (w.recent_share_times ++ now ∷ [])))

  credit-IsCredited :
      {F : Type 0}
      → (float : Float F) (now : ℕ) (name : Bytes) (payout : Hash256) (ps : PoolState F)
      → IsCredited now name payout ps (credit ext float now name payout ps).1
  unfolding credit record_share record_time
  credit-IsCredited float now name payout ps = (
    refl,
    λ w found. (
      record_time now w,
      update_worker-known (record_time now) name w ps.workers found,
      refl,
      refl,
    ),
  )

  -- A block that is found, or lost, changes nothing of that.
  submit_block-IsCredited :
      {F : Type 0}
      → (float : Float F) (now : ℕ) (name : Bytes) (payout : Hash256) (nonce : ℕ) (hash : Hash256)
        (check : BlockHeader) (before after : PoolState F)
      → IsCredited now name payout before after
      → IsCredited now name payout before (submit_block ext float name nonce hash check after).1
  unfolding submit_block count_block
  submit_block-IsCredited float now name payout nonce hash check before after done =
      elim (Option-cases (solved_block nonce after)) [
        | inl nothing ↦ rw (submit_block, nothing) done
        | inr (block, found) ↦ elim (Bool-cases (bytes_eq (header_hash ext block.header) hash)) [
          | inl same ↦ rw (submit_block, found, same) done
          | inr other ↦ rw (submit_block, found, other) done
        ]
      ]

  -- A nonce that the miner finds for a job passes the pool's test of the proof of work, as long as
  -- the pool has the header and the share target of that job: the pool afterwards has the share at
  -- the end of its window and, if the worker is registered, among the worker's accepted shares and
  -- their times, and the first message back says that it is accepted, with how many of the
  -- worker's have been.
  pub mine_job-judge_share :
      {F : Type 0}
      → (float : Float F) (now : ℕ) (worker_name : Bytes) (payout_hash : Hash256) (work : MiningJob)
        (threads offset : ℕ) (order : List (ℕ × ℕ)) (nonce : ℕ) (hash : Hash256) (snap : Snapshot)
        (ps : PoolState F)
      → mine_job ext work threads offset order ≡ some (nonce, hash)
      → snap.header ≡ work.header
      → snap.share_target ≡ work.share_target
      → let (outcome, ps') = judge_share ext float now worker_name payout_hash nonce snap ps in
        IsCredited now worker_name payout_hash ps ps'
        × (let worker = get (record_share now worker_name payout_hash ps).workers worker_name in
            (rate : F) × (others : List (PoolMessage F)) × (outcome.messages
              ≡ share_accepted (accepted_of worker) rate ∷ others))
  unfolding judge_share mine_job credit
  mine_job-judge_share float now worker_name payout_hash work threads offset order nonce hash snap
        ps mined same_header same_target =
      let zeros = leading_zero_bits (hash_with ext snap.header nonce) in
      let (_, good) =
        first_share-good work (18446744073709551615 / threads) offset order nonce hash mined in
      let enough : ltb zeros snap.share_target ≡ false =
        rw (same_header, same_target) (not_below good) in
      let check = record snap.header { nonce = nonce } in
      let credited = (credit ext float now worker_name payout_hash ps).1 in
      let (counted, _) =
        submit_block ext float worker_name nonce (header_hash ext check) check credited in
      let first = credit-IsCredited float now worker_name payout_hash ps in
      let worker = get credited.workers worker_name in
      let rate = rate_of ext float credited.share_target worker in
      elim (Bool-cases (leb snap.network_target zeros)) [
        | inl block ↦
            rw (judge_share, enough, block)
              (
                submit_block-IsCredited float now worker_name payout_hash nonce
                    (header_hash ext check) check ps credited first,
                (rate, counted.messages, refl),
              )
        | inr share ↦ rw (judge_share, enough, share) (first, (rate, [], refl))
      ]
    where
      not_below :
          leb work.share_target (leading_zero_bits (hash_with ext work.header nonce)) ≡ true
          → ltb (leading_zero_bits (hash_with ext work.header nonce)) work.share_target ≡ false
      not_below h = ground arith
