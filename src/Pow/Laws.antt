-- ===== src/Pow/Laws.antt =====
-- No slice of the scratchpad is out of range.
use equiforge.Prelude.{
  ℕ, zero, suc, ◌+◌, ◌*◌, ◌%◌, ◌<◌, ◌≡◌, refl, ap, ◌∙◌, arith, Bool, true, false, if◌then◌else◌,
  List, [], ◌∷◌, ◌++◌, Bytes, length, length-append, length-take, length-drop, length-le_bytes,
  take, drop, nat_eq, u32_le, u64_le,
}
use equiforge.Network.Compact.{set_at}
use equiforge.Pow.{
  n_chunks, words_in, state_bytes, xor_words, mix_word, mix_words, read_chunk, write_chunk,
  read_index, write_index, fill, compress, mix_round, mix_rounds, prepare,
}

length-set_at : {A : Type 0} (i : ℕ) (a : A) (xs : List A) → length (set_at i a xs) ≡ length xs
unfolding set_at
length-set_at i a [] = refl
length-set_at zero a (x ∷ xs) = refl
length-set_at (suc i) a (x ∷ xs) = ap suc (length-set_at i a xs)

length-words_in : (n : ℕ) (bytes : Bytes) → length (words_in n bytes) ≡ n
unfolding words_in
length-words_in zero bytes = refl
length-words_in (suc n) bytes = ap suc (length-words_in n (drop 8 bytes))

length-state_bytes : (state : List ℕ) → length (state_bytes state) ≡ length state * 8
unfolding state_bytes
length-state_bytes [] = omega arith
length-state_bytes (w ∷ state) = omega (
  arith,
  length-append (u64_le w) (state_bytes state),
  length-le_bytes 8 w,
  length-state_bytes state,
)

length-xor_words :
    (at : ℕ) (words state : List ℕ) → length (xor_words at words state) ≡ length state
unfolding xor_words
length-xor_words at [] state = refl
length-xor_words at (w ∷ words) state = length-xor_words (suc at) words _ ∙ length-set_at at _ state

length-mix_words :
    (left j round : ℕ) (read_data state : List ℕ)
    → length (mix_words left j round read_data state) ≡ length state
unfolding mix_words mix_word
length-mix_words zero j round read_data state = refl
length-mix_words (suc left) j round read_data state =
    length-mix_words left (suc j) round read_data (mix_word round j read_data state)
    ∙ length-set_at j _ state

length-choose :
    (b : Bool) (xs ys : List ℕ) → length xs ≡ length ys → length (if b then xs else ys) ≡ length ys
length-choose true xs ys e = e
length-choose false xs ys e = refl

-- The scratchpad has 4 MB, the state eight words.
abbrev pub IsSound : List ℕ × Bytes → Type 0
IsSound (state, scratchpad) = (length state ≡ 8) × (length scratchpad ≡ 4194304)

length-read_chunk :
    (idx : ℕ) (pad : Bytes)
    → idx < n_chunks
    → length pad ≡ 4194304
    → length (read_chunk idx pad) ≡ 64
unfolding read_chunk
length-read_chunk idx pad h sized =
    omega (arith, length-take 64 (drop (idx * 64) pad), length-drop (idx * 64) pad)

length-write_chunk :
    (idx : ℕ) (bytes pad : Bytes)
    → idx < n_chunks
    → length bytes ≡ 64
    → length pad ≡ 4194304
    → length (write_chunk idx bytes pad) ≡ 4194304
unfolding write_chunk
length-write_chunk idx bytes pad h k sized =
    let back = drop ((idx + 1) * 64) pad in
    omega (
      arith,
      length-append (take (idx * 64) pad) (bytes ++ back),
      length-append bytes back,
      length-take (idx * 64) pad,
      length-drop ((idx + 1) * 64) pad,
    )

module _ (sha256 blake3 : Bytes → Bytes) where
  length-fill :
      (left i : ℕ) (seed : Bytes)
      → ((message : Bytes) → length (blake3 message) ≡ 32)
      → length (fill sha256 blake3 left i seed) ≡ left * 64
  unfolding fill
  length-fill zero i seed digest = omega arith
  length-fill (suc left) i seed digest =
      let chunk_hash = blake3 (seed ++ u32_le i) in
      let second = blake3 (chunk_hash ++ u32_le i) in
      omega (
        arith,
        length-append (chunk_hash ++ second) (fill sha256 blake3 left (suc i) seed),
        length-append chunk_hash second,
        digest (seed ++ u32_le i),
        digest (chunk_hash ++ u32_le i),
        length-fill left (suc i) seed digest,
      )

  length-compress :
      (round : ℕ) (state : List ℕ) → length (compress sha256 blake3 round state) ≡ length state
  unfolding compress
  length-compress round state =
      let hashed = xor_words 0 (words_in 4 (sha256 (state_bytes state))) state in
      let state' = if nat_eq (round % 8) 7 then hashed else state in
      let words = words_in 4 (blake3 (state_bytes state')) in
      let first =
        length-choose (nat_eq (round % 8) 7) hashed state
          (length-xor_words 0 (words_in 4 (sha256 (state_bytes state))) state) in
      length-choose (nat_eq (round % 16) 15) (xor_words 4 words state') state'
        (length-xor_words 4 words state')
      ∙ first

  mix_round-IsSound :
      (round : ℕ) (st : List ℕ × Bytes) → IsSound st → IsSound (mix_round sha256 blake3 round st)
  unfolding mix_round write_index
  mix_round-IsSound round (state, pad) (eight, sized) =
      let read_data = words_in 8 (read_chunk (read_index round state) pad) in
      let mixed = mix_words 8 0 round read_data state in
      let state' = compress sha256 blake3 round mixed in
      let still : length state' ≡ 8 =
        length-compress round mixed ∙ length-mix_words 8 0 round read_data state ∙ eight in
      (
        still,
        length-write_chunk (write_index state') (state_bytes state') pad (omega arith)
            (omega (arith, length-state_bytes state', still)) sized,
      )

  mix_rounds-IsSound :
      (left round : ℕ) (st : List ℕ × Bytes)
      → IsSound st
      → IsSound (mix_rounds sha256 blake3 left round st)
  unfolding mix_rounds
  mix_rounds-IsSound zero round st sound = sound
  mix_rounds-IsSound (suc left) round st sound =
      mix_rounds-IsSound left (suc round) (mix_round sha256 blake3 round st)
        (mix_round-IsSound round st sound)

  prepare-IsSound :
      (header_bytes : Bytes)
      → ((message : Bytes) → length (blake3 message) ≡ 32)
      → IsSound (prepare sha256 blake3 header_bytes)
  unfolding prepare
  prepare-IsSound header_bytes digest =
      let seed = blake3 header_bytes in
      (
        omega (
          arith,
          length-append (words_in 4 seed) (words_in 4 (sha256 header_bytes)),
          length-words_in 4 seed,
          length-words_in 4 (sha256 header_bytes),
        ),
        omega (arith, length-fill n_chunks 0 seed digest),
      )

  -- However many rounds have mixed the header, the scratchpad has its 4 MB and the state its eight
  -- words, and the chunk that the next round reads lies within the scratchpad, if a digest of
  -- BLAKE3 is 32 bytes.
  pub mix_rounds_bounds :
      (header_bytes : Bytes) (rounds round : ℕ)
      → ((message : Bytes) → length (blake3 message) ≡ 32)
      → let st = mix_rounds sha256 blake3 rounds 0 (prepare sha256 blake3 header_bytes) in
        IsSound st × (length (read_chunk (read_index round st.0) st.1) ≡ 64)
  unfolding read_index
  mix_rounds_bounds header_bytes rounds round digest =
      let start = prepare sha256 blake3 header_bytes in
      let st = mix_rounds sha256 blake3 rounds 0 start in
      let sound = mix_rounds-IsSound rounds 0 start (prepare-IsSound header_bytes digest) in
      (sound, length-read_chunk (read_index round st.0) st.1 (omega arith) sound.1)
