-- ===== src/Pow.antt =====
-- pow/mod.rs: `equihash_x`, over what `sha2` and `blake3` offer. The scratchpad is a list of bytes,
-- the state one of eight words.
pub mod Laws
use equiforge.Prelude.{
  ℕ, zero, suc, ◌+◌, ◌-◌, ◌*◌, ◌/◌, ◌%◌, ◌^◌, List, [], ◌∷◌, ◌++◌, Bytes, take, drop, get_or,
  nat_eq, u32_le, u64_le, u64_mod, ◌+u64◌, if◌then◌else◌,
}
use Prim.Native.Nat.{bit_xor}
use equiforge.Types.{Hash256}
use equiforge.Types.Externals.{Externals}
use equiforge.Storage.Keys.{from_le}
use equiforge.Network.Compact.{set_at}

abbrev pub chunk_size : ℕ
chunk_size = 64

-- SCRATCHPAD_SIZE / CHUNK_SIZE
abbrev pub n_chunks : ℕ
n_chunks = 65536

abbrev pub n_iterations : ℕ
n_iterations = 64

-- `u64::from_le_bytes` on the first `n` slices of eight bytes
unfoldable pub words_in : ℕ → Bytes → List ℕ
words_in zero bytes = []
words_in (suc n) bytes = from_le (take 8 bytes) ∷ words_in n (drop 8 bytes)

-- `to_le_bytes` of each word of the state
unfoldable pub state_bytes : List ℕ → Bytes
state_bytes [] = []
state_bytes (w ∷ state) = u64_le w ++ state_bytes state

-- `rotate_left` on `u64`, by less than 64
unfoldable pub rotate_left : ℕ → ℕ → ℕ
rotate_left x k = x * 2 ^ k % u64_mod + x / 2 ^ (64 - k)

-- `state[at + j] ^= word`, for the words in turn
unfoldable pub xor_words : ℕ → List ℕ → List ℕ → List ℕ
xor_words at [] state = state
xor_words at (w ∷ words) state =
    xor_words (suc at) words (set_at at (bit_xor (get_or state at 0) w) state)

-- One word of the state: the word of the scratchpad, the next word of the state, and a rotation.
unfoldable pub mix_word : ℕ → ℕ → List ℕ → List ℕ → List ℕ
unfolding rotate_left
mix_word round j read_data state =
    let mixed = bit_xor (get_or state j 0) (get_or read_data j 0) in
    let next = get_or state (suc j % 8) 0 in
    set_at j (rotate_left (mixed +u64 next) ((round + j) % 64)) state

-- `for j in 0..8`, from `j` on, with `left` words left.
unfoldable pub mix_words : ℕ → ℕ → ℕ → List ℕ → List ℕ → List ℕ
mix_words zero j round read_data state = state
mix_words (suc left) j round read_data state =
    mix_words left (suc j) round read_data (mix_word round j read_data state)

unfoldable pub read_chunk : ℕ → Bytes → Bytes
read_chunk idx scratchpad = take chunk_size (drop (idx * chunk_size) scratchpad)

unfoldable pub write_chunk : ℕ → Bytes → Bytes → Bytes
write_chunk idx bytes scratchpad =
    take (idx * chunk_size) scratchpad ++ (bytes ++ drop ((idx + 1) * chunk_size) scratchpad)

unfoldable pub read_index : ℕ → List ℕ → ℕ
read_index round state = (get_or state 0 0 +u64 get_or state (round % 8) 0) % n_chunks

unfoldable pub write_index : List ℕ → ℕ
write_index state = get_or state 1 0 * get_or state 3 0 % u64_mod % n_chunks

module _ (sha256 blake3 : Bytes → Bytes) where
  -- The chunk `Blake3(seed || i)`, and its hash with `i` again.
  unfoldable pub make_chunk : Bytes → ℕ → Bytes
  make_chunk seed i =
      let chunk_hash = blake3 (seed ++ u32_le i) in chunk_hash ++ blake3 (chunk_hash ++ u32_le i)

  -- `for i in 0..N_CHUNKS`, from `i` on, with `left` chunks left.
  unfoldable pub fill : ℕ → ℕ → Bytes → Bytes
  unfolding make_chunk
  fill zero i seed = []
  fill (suc left) i seed = make_chunk seed i ++ fill left (suc i) seed

  -- The compressions of every 8th and every 16th round.
  unfoldable pub compress : ℕ → List ℕ → List ℕ
  compress round state =
      let hashed = xor_words 0 (words_in 4 (sha256 (state_bytes state))) state in
      let state' = if nat_eq (round % 8) 7 then hashed else state in
      let hashed' = xor_words 4 (words_in 4 (blake3 (state_bytes state'))) state' in
      if nat_eq (round % 16) 15 then hashed' else state'

  unfoldable pub mix_round : ℕ → List ℕ × Bytes → List ℕ × Bytes
  mix_round round (state, scratchpad) =
      let read_data = words_in 8 (read_chunk (read_index round state) scratchpad) in
      let state' = compress round (mix_words 8 0 round read_data state) in
      (state', write_chunk (write_index state') (state_bytes state') scratchpad)

  -- The loop, from `round` on, with `left` rounds left.
  unfoldable pub mix_rounds : ℕ → ℕ → List ℕ × Bytes → List ℕ × Bytes
  mix_rounds zero round st = st
  mix_rounds (suc left) round st = mix_rounds left (suc round) (mix_round round st)

  -- The state and the scratchpad before the first round.
  unfoldable pub prepare : Bytes → List ℕ × Bytes
  prepare header_bytes =
      let seed = blake3 header_bytes in
      (words_in 4 seed ++ words_in 4 (sha256 header_bytes), fill n_chunks 0 seed)

  unfoldable pub equihash_x : Bytes → Hash256
  equihash_x header_bytes =
      sha256 (sha256 (state_bytes (mix_rounds n_iterations 0 (prepare header_bytes)).0))

-- The packages' functions with this hash in its place.
abbrev pub with_pow : (Bytes → Bytes) → Externals → Externals
with_pow blake3 ext = record ext { equihash_x = equihash_x ext.sha256 blake3 }
