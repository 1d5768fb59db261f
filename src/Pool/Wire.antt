-- ===== src/Pool/Wire.antt =====
-- pool/mod.rs: `PoolMessage`, `read_pool_msg` and `write_pool_msg`. A stream is the bytes that are
-- still to be read; the encoding of the payload is `bincode`'s.
use equiforge.Prelude.{
  ℕ, ◌*◌, ◌%◌, ◌≤◌, ◌≡◌, refl, arith, false, Bytes, ◌++◌, append_assoc, Option, none, some, length,
  take, drop, ltb, u32_mod, u32_le, length-le_bytes, length-append, take-append_at, drop-append_at,
  take-append, drop-append, Result, ok, err, ◌>>◌, fail_if,
}
use equiforge.Types.{Hash256, BlockHeader}
use equiforge.Storage.Keys.{from_le}
use equiforge.Storage.Keys.Laws.{from_le-le_bytes}

-- The texts of `ShareRejected`, with the numbers that they show.
pub data Reason : Type 0 where
  bad_payout_address no_active_job duplicate_nonce : Reason
  -- the job of the share and the current one
  stale_job : ℕ → ℕ → Reason
  -- the leading zeros and the required ones
  insufficient_pow : ℕ → ℕ → Reason

pub data PoolMessage (F : Type 0) : Type 0 where
  register : (worker_name payout_address : Bytes) → PoolMessage F
  submit_share : (job_id nonce : ℕ) → PoolMessage F
  job : (job_id : ℕ) (header : BlockHeader) (share_target network_target : ℕ) → PoolMessage F
  job_cancel : PoolMessage F
  share_accepted : (shares_accepted : ℕ) (hashrate_estimate : F) → PoolMessage F
  share_rejected : (reason : Reason) → PoolMessage F
  block_found : (height : ℕ) (hash : Hash256) (finder : Bytes) → PoolMessage F
  pool_stats :
      (connected_miners : ℕ) (pool_hashrate : F) (blocks_found current_height : ℕ) → PoolMessage F

abbrev pub max_pool_msg : ℕ
max_pool_msg = 1024 * 1024

-- The texts of the errors of `read_pool_msg`.
pub data ReadError : Type 0 where
  read_len message_too_large read_payload deserialize : ReadError

-- `bincode` on the messages.
pub record MessageCode (F : Type 0) : Type 0 where
  pub serialize : PoolMessage F → Bytes
  pub deserialize : Bytes → Option (PoolMessage F)

ltb-false : (a b : ℕ) → b ≤ a → ltb a b ≡ false
ltb-false a b h = ground arith

module _ {F : Type 0} (code : MessageCode F) where
  -- What is left of the stream comes with the message.
  unfoldable pub read_pool_msg : Bytes → Result ReadError (PoolMessage F × Bytes)
  read_pool_msg stream = do
    fail_if (ltb (length stream) 4) read_len
    let size = from_le (take 4 stream)
    let others = drop 4 stream
    fail_if (ltb max_pool_msg size) message_too_large
    fail_if (ltb (length others) size) read_payload
    elim (code.deserialize (take size others)) [
      | none ↦ err deserialize
      | some msg ↦ ok (msg, drop size others)
    ]

  -- What is written to the stream; `payload.len() as u32` wraps.
  unfoldable pub write_pool_msg : PoolMessage F → Bytes
  write_pool_msg msg =
      let payload = code.serialize msg in u32_le (length payload % u32_mod) ++ payload

  -- A message that is written is read again, and nothing of what follows it, if `bincode` decodes
  -- what it encodes and the message is not too large.
  pub read-write_pool_msg :
      (msg : PoolMessage F) (after : Bytes)
      → code.deserialize (code.serialize msg) ≡ some msg
      → length (code.serialize msg) ≤ max_pool_msg
      → read_pool_msg (write_pool_msg msg ++ after) ≡ ok (msg, after)
  unfolding read_pool_msg write_pool_msg
  read-write_pool_msg msg after faithful small =
      let payload = code.serialize msg in
      let size = length payload in
      let len : Bytes = u32_le (size % u32_mod) in
      let four : length len ≡ 4 = length-le_bytes 4 (size % u32_mod) in
      let shape : (len ++ payload) ++ after ≡ len ++ (payload ++ after) =
        append_assoc len payload after in
      let enough : ltb (length (len ++ (payload ++ after))) 4 ≡ false =
        ltb-false (length (len ++ (payload ++ after))) 4
          (omega (arith, four, length-append len (payload ++ after))) in
      let whole : ltb (length (payload ++ after)) size ≡ false =
        ltb-false (length (payload ++ after)) size (omega (arith, length-append payload after)) in
      let number : from_le len ≡ size =
        rw (from_le-le_bytes 4 (size % u32_mod) (omega arith)) (omega arith) in
      rw
        (
          shape,
          enough,
          take-append_at 4 len (payload ++ after) four,
          drop-append_at 4 len (payload ++ after) four,
          number,
          ltb-false max_pool_msg size small,
          whole,
          take-append payload after,
          faithful,
        )
        (rw
          (
            shape,
            take-append_at 4 len (payload ++ after) four,
            drop-append_at 4 len (payload ++ after) four,
            number,
            drop-append payload after,
          )
          refl)
