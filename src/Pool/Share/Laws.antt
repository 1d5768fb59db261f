-- ===== src/Pool/Share/Laws.antt =====
-- A nonce is credited once for a job, and only with enough work.
use equiforge.Prelude.{
  ℕ, ◌≡◌, refl, ◌∙◌, arith, true, false, List, [], ◌∷◌, Bytes, some, nat_eq, ltb, leb, bytes_eq,
  Option-cases, Bool-cases, inl, inr,
}
use equiforge.Types.{Hash256, BlockHeader}
use equiforge.Types.Externals.{Externals, header_hash}
use equiforge.Types.Bits.{leading_zero_bits}
use equiforge.Chain.Difficulty.{Float}
use equiforge.Pool.Wire.{duplicate_nonce}
use equiforge.Pool.State.{PoolState, record_share}
use equiforge.Pool.Share.{
  Snapshot, has_nonce, rejected, take_snapshot, claim_nonce, solved_block, count_block, credit,
  submit_block, judge_share, process_on, process_share,
}

-- A share as a worker submits it.
pub record Submission : Type 0 where
  pub now : ℕ
  pub worker_name : Bytes
  pub payout_hash : Hash256
  pub job_id : ℕ
  pub nonce : ℕ

module _ {F : Type 0} (ext : Externals) (float : Float F) where
  submit_block-kept :
      (name : Bytes) (nonce : ℕ) (hash : Hash256) (check : BlockHeader) (ps : PoolState F)
      → (let ps' = (submit_block ext float name nonce hash check ps).1 in
          (take_snapshot ps' ≡ take_snapshot ps) × (ps'.used_nonces ≡ ps.used_nonces))
  unfolding submit_block count_block take_snapshot
  submit_block-kept name nonce hash check ps = elim (Option-cases (solved_block nonce ps)) [
    | inl nothing ↦ rw (submit_block, nothing) (refl, refl)
    | inr (block, found) ↦ elim (Bool-cases (bytes_eq (header_hash ext block.header) hash)) [
      | inl same ↦ rw (submit_block, found, same) (refl, refl)
      | inr other ↦ rw (submit_block, found, other) (refl, refl)
    ]
  ]

  credit-kept :
      (now : ℕ) (name : Bytes) (payout : Hash256) (ps : PoolState F)
      → (let ps' = (credit ext float now name payout ps).1 in
          (take_snapshot ps' ≡ take_snapshot ps) × (ps'.used_nonces ≡ ps.used_nonces))
  unfolding credit record_share take_snapshot
  credit-kept now name payout ps = (refl, refl)

  judge_share-kept :
      (now : ℕ) (name : Bytes) (payout : Hash256) (nonce : ℕ) (snap : Snapshot) (ps : PoolState F)
      → (let ps' = (judge_share ext float now name payout nonce snap ps).1 in
          (take_snapshot ps' ≡ take_snapshot ps) × (ps'.used_nonces ≡ ps.used_nonces))
  unfolding judge_share
  judge_share-kept now name payout nonce snap ps =
      let check = record snap.header { nonce = nonce } in
      let hash = header_hash ext check in
      let credited = (credit ext float now name payout ps).1 in
      let first = credit-kept now name payout ps in
      let second = submit_block-kept name nonce hash check credited in
      let zeros = leading_zero_bits hash in
      elim (Bool-cases (ltb zeros snap.share_target)) [
        | inl weak ↦ rw weak (refl, refl)
        | inr strong ↦ elim (Bool-cases (leb snap.network_target zeros)) [
          | inl block ↦ rw (strong, block) (second.0 ∙ first.0, second.1 ∙ first.1)
          | inr share ↦ rw (strong, share) (first.0, first.1)
        ]
      ]

  -- After a claim the nonce is used, and every nonce that was.
  claim_nonce-kept :
      (name : Bytes) (nonce other : ℕ) (ps : PoolState F)
      → (let ps' = (claim_nonce name nonce ps).1 in
          (take_snapshot ps' ≡ take_snapshot ps)
          × (has_nonce nonce ps'.used_nonces ≡ true)
          × (has_nonce other ps.used_nonces ≡ true → has_nonce other ps'.used_nonces ≡ true))
  unfolding claim_nonce take_snapshot has_nonce
  claim_nonce-kept name nonce other ps = elim (Bool-cases (has_nonce nonce ps.used_nonces)) [
    | inl used ↦ rw used (refl, used, λ h. h)
    | inr new ↦ rw new (refl, ground arith, λ h. ground arith)
  ]

  pub claim_nonce_new :
      (name : Bytes) (nonce : ℕ) (ps : PoolState F)
      → (claim_nonce name nonce ps).0 ≡ true
      → has_nonce nonce ps.used_nonces ≡ false
  unfolding claim_nonce
  claim_nonce_new name nonce ps h = ground arith

  process_on-kept :
      (now : ℕ) (name : Bytes) (payout : Hash256) (job nonce other : ℕ) (snap : Snapshot)
      (ps : PoolState F)
      → (let ps' = (process_on ext float now name payout job nonce snap ps).1 in
          (take_snapshot ps' ≡ take_snapshot ps)
          × (has_nonce other ps.used_nonces ≡ true → has_nonce other ps'.used_nonces ≡ true)
          × (job ≡ snap.current_job_id → has_nonce nonce ps'.used_nonces ≡ true))
  unfolding process_on
  process_on-kept now name payout job nonce other snap ps =
      let claimed = (claim_nonce name nonce ps).1 in
      let (same, used, still) = claim_nonce-kept name nonce other ps in
      let (same', nonces) = judge_share-kept now name payout nonce snap claimed in
      elim (Bool-cases (nat_eq job snap.current_job_id)) [
        | inr stale ↦ rw stale (refl, λ h. h, λ e. absurd (ground arith))
        | inl current ↦ elim (Bool-cases (claim_nonce name nonce ps).0) [
          | inr again ↦ rw (current, again) (same, still, λ e. used)
          | inl new ↦
              rw (current, new) (same' ∙ same, λ h. rw nonces (still h), λ e. rw nonces used)
        ]
      ]

  pub process_share-process_on :
      (now : ℕ) (name : Bytes) (payout : Hash256) (job nonce : ℕ) (snap : Snapshot)
      (ps : PoolState F)
      → take_snapshot ps ≡ some snap
      → process_share ext float now name payout job nonce ps
        ≡ process_on ext float now name payout job nonce snap ps
  unfolding process_share
  process_share-process_on now name payout job nonce snap ps found = rw (process_share, found) refl

  process_share-kept :
      (now : ℕ) (name : Bytes) (payout : Hash256) (job nonce other : ℕ) (ps : PoolState F)
      → (let ps' = (process_share ext float now name payout job nonce ps).1 in
          (take_snapshot ps' ≡ take_snapshot ps)
          × (has_nonce other ps.used_nonces ≡ true → has_nonce other ps'.used_nonces ≡ true)
          × ((snap : Snapshot)
              → take_snapshot ps ≡ some snap
              → job ≡ snap.current_job_id
              → has_nonce nonce ps'.used_nonces ≡ true))
  unfolding process_share
  process_share-kept now name payout job nonce other ps = elim (Option-cases (take_snapshot ps)) [
    | inl nothing ↦ rw (process_share, nothing) (nothing, λ h. h, λ snap e j. absurd (cc e))
    | inr (snap, found) ↦
        let (same, still, claimed) = process_on-kept now name payout job nonce other snap ps in
        rw (process_share-process_on now name payout job nonce snap ps found)
          (same, still, λ other_snap e j. claimed (ground arith))
  ]

  -- The shares one after the other.
  abbrev pub process_all : List Submission → PoolState F → PoolState F
  process_all [] ps = ps
  process_all (s ∷ submissions) ps =
      process_all submissions
        (process_share ext float s.now s.worker_name s.payout_hash s.job_id s.nonce ps).1

  process_all-kept :
      (submissions : List Submission) (nonce : ℕ) (ps : PoolState F)
      → (let ps' = process_all submissions ps in
          (take_snapshot ps' ≡ take_snapshot ps)
          × (has_nonce nonce ps.used_nonces ≡ true → has_nonce nonce ps'.used_nonces ≡ true))
  process_all-kept [] nonce ps = (refl, λ h. h)
  process_all-kept (s ∷ submissions) nonce ps =
      let ps' = (process_share ext float s.now s.worker_name s.payout_hash s.job_id s.nonce ps).1 in
      let (same, still, _) =
        process_share-kept s.now s.worker_name s.payout_hash s.job_id s.nonce nonce ps in
      let (same', still') = process_all-kept submissions nonce ps' in
      (same' ∙ same, λ h. still' (still h))

  -- A nonce that was submitted for the current job is refused as a duplicate when it is submitted
  -- again, by whomever, whatever became of it and whatever was submitted in between, as long as the
  -- pool has the same job.
  pub process_share_once :
      (now later : ℕ) (name name' : Bytes) (payout payout' : Hash256) (nonce : ℕ)
      (between : List Submission) (snap : Snapshot) (ps : PoolState F)
      → take_snapshot ps ≡ some snap
      → (let job = snap.current_job_id in
          let ps' = process_all between (process_share ext float now name payout job nonce ps).1 in
          (process_share ext float later name' payout' job nonce ps').0 ≡ rejected duplicate_nonce)
  unfolding process_on claim_nonce
  process_share_once now later name name' payout payout' nonce between snap ps found =
      let job = snap.current_job_id in
      let first = (process_share ext float now name payout job nonce ps).1 in
      let ps' = process_all between first in
      let (same, _, claimed) = process_share-kept now name payout job nonce nonce ps in
      let (same', still) = process_all-kept between nonce first in
      let used : has_nonce nonce ps'.used_nonces ≡ true = still (claimed snap found refl) in
      let current : nat_eq job job ≡ true = ground arith in
      rw
        (
          process_share-process_on later name' payout' job nonce snap ps' (same' ∙ same ∙ found),
          current,
          used,
        )
        refl
