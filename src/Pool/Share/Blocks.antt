-- ===== src/Pool/Share/Blocks.antt =====
-- A block that the pool sends to the network has enough work.
use equiforge.Prelude.{
  ℕ, ◌≤◌, ◌≡◌, refl, sym, ap, ◌∙◌, arith, false, Bytes, some, nat_eq, ltb, leb, bytes_eq,
  bytes_eq_iff, Option-cases, Bool-cases, inl, inr,
}
use equiforge.Types.{Hash256, BlockHeader, Block}
use equiforge.Types.Externals.{Externals, header_hash}
use equiforge.Types.Bits.{leading_zero_bits}
use equiforge.Chain.Difficulty.{Float}
use equiforge.Pool.State.{PoolState, record_share}
use equiforge.Pool.Share.{
  Snapshot, has_nonce, take_snapshot, claim_nonce, solved_block, credit, submit_block, judge_share,
  process_on, process_share,
}
use equiforge.Pool.Share.Laws.{process_share-process_on, claim_nonce_new}

module _ {F : Type 0} (ext : Externals) (float : Float F) where
  submit_block_broadcasts :
      (name : Bytes) (nonce : ℕ) (hash : Hash256) (check : BlockHeader) (ps : PoolState F)
      (block : Block)
      → (submit_block ext float name nonce hash check ps).0.broadcast ≡ some block
      → (solved_block nonce ps ≡ some block) × (header_hash ext block.header ≡ hash)
  unfolding submit_block
  submit_block_broadcasts name nonce hash check ps block e =
      elim (Option-cases (solved_block nonce ps)) [
        | inl nothing ↦ absurd (ground arith)
        | inr (b, found) ↦ elim (Bool-cases (bytes_eq (header_hash ext b.header) hash)) [
          | inr other ↦ absurd (ground arith)
          | inl same ↦
              let is : b ≡ block = ground arith in
              (
                found ∙ ap (λ x. some x) is,
                (rw is at ((bytes_eq_iff (header_hash ext b.header) hash).0 same)),
              )
        ]
      ]

  solved_block-credit :
      (now : ℕ) (name : Bytes) (payout : Hash256) (nonce : ℕ) (ps : PoolState F)
      → solved_block nonce ps ≡ solved_block nonce (credit ext float now name payout ps).1
  unfolding solved_block credit record_share
  solved_block-credit now name payout nonce ps = refl

  judge_share_broadcasts :
      (now : ℕ) (name : Bytes) (payout : Hash256) (nonce : ℕ) (snap : Snapshot) (ps : PoolState F)
      (block : Block)
      → (judge_share ext float now name payout nonce snap ps).0.broadcast ≡ some block
      → (solved_block nonce ps ≡ some block)
        × (snap.network_target ≤ leading_zero_bits (header_hash ext block.header))
        × (snap.share_target ≤ leading_zero_bits (header_hash ext block.header))
  unfolding judge_share
  judge_share_broadcasts now name payout nonce snap ps block e =
      let check = record snap.header { nonce = nonce } in
      let hash = header_hash ext check in
      let zeros = leading_zero_bits hash in
      let credited = (credit ext float now name payout ps).1 in
      elim (Bool-cases (ltb zeros snap.share_target)) [
        | inl weak ↦ absurd (ground arith)
        | inr strong ↦ elim (Bool-cases (leb snap.network_target zeros)) [
          | inr share ↦ absurd (ground arith)
          | inl enough ↦
              let sent : (submit_block ext float name nonce hash check credited).0.broadcast
                  ≡ some block =
                ground arith in
              let (found, same) =
                submit_block_broadcasts name nonce hash check credited block sent in
              let network : snap.network_target ≤ zeros = ground arith in
              let share : snap.share_target ≤ zeros = ground arith in
              (solved_block-credit now name payout nonce ps ∙ found, rw same network, rw same share)
        ]
      ]

  solved_block-claim_nonce :
      (name : Bytes) (nonce other : ℕ) (ps : PoolState F)
      → solved_block other (claim_nonce name nonce ps).1 ≡ solved_block other ps
  unfolding solved_block claim_nonce
  solved_block-claim_nonce name nonce other ps =
      elim (Bool-cases (has_nonce nonce ps.used_nonces)) [
        | inl used ↦ rw used refl
        | inr new ↦ rw new refl
      ]

  -- A block that goes to the network is the template of the pool's current job with a nonce that
  -- was not used for it, and its hash has the leading zeros of the network's target and of the
  -- pool's.
  pub process_share_broadcasts :
      (now : ℕ) (name : Bytes) (payout : Hash256) (job nonce : ℕ) (snap : Snapshot)
      (ps : PoolState F) (block : Block)
      → take_snapshot ps ≡ some snap
      → (process_share ext float now name payout job nonce ps).0.broadcast ≡ some block
      → (job ≡ snap.current_job_id)
        × (has_nonce nonce ps.used_nonces ≡ false)
        × (solved_block nonce ps ≡ some block)
        × (snap.network_target ≤ leading_zero_bits (header_hash ext block.header))
        × (snap.share_target ≤ leading_zero_bits (header_hash ext block.header))
  unfolding process_on
  process_share_broadcasts now name payout job nonce snap ps block found e =
      let sent : (process_on ext float now name payout job nonce snap ps).0.broadcast ≡ some block =
        rw (process_share-process_on ext float now name payout job nonce snap ps found) at e in
      let (fresh, claimed) = claim_nonce name nonce ps in
      elim (Bool-cases (nat_eq job snap.current_job_id)) [
        | inr stale ↦ absurd (ground arith)
        | inl current ↦ elim (Bool-cases (claim_nonce name nonce ps).0) [
          | inr again ↦ absurd (ground arith)
          | inl new ↦
              let judged : (judge_share ext float now name payout nonce snap
                    (claim_nonce name nonce ps).1).0.broadcast
                  ≡ some block =
                ground arith in
              let (solved, network, share) =
                judge_share_broadcasts now name payout nonce snap (claim_nonce name nonce ps).1
                  block judged in
              (
                ground arith,
                claim_nonce_new ext float name nonce ps new,
                sym (solved_block-claim_nonce name nonce nonce ps) ∙ solved,
                network,
                share,
              )
        ]
      ]
