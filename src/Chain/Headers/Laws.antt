-- ===== src/Chain/Headers/Laws.antt =====
-- What the headers have in common that `validate_header_chain` keeps.
use equiforge.Prelude.{
  ℕ, ◌<◌, ◌≡◌, refl, ap, arith, ◌∙◌, true, List, [], ◌∷◌, ◌++◌, map, some, bytes_eq_iff, ◌+u64◌,
  Bool-cases, inl, inr, ◌↔◌, ◌⊎◌, bytes_instance,
}
use equiforge.Prelude.Maps.{get}
use equiforge.Types.{Hash256, BlockHeader}
use equiforge.Types.Externals.{header_hash}
use equiforge.Types.Bits.{meets_difficulty}
use equiforge.Chain.State.{Env, Chain}
use equiforge.Chain.Difficulty.{fractional_to_integer_difficulty, replay}
use equiforge.Chain.Difficulty.Replay.{replay-append}
use equiforge.Chain.Accept.{timestamps_of}
use equiforge.Chain.Reorg.{chain_from_tip}
use equiforge.Params.Rewards.{initial_difficulty}
use mathlib.Core.List.{reverse}
use equiforge.Chain.Headers.{follows, accept_headers, validate_header_chain}

module _ {F S : Type 0} (env : Env F S) where
  open env use {ext, float}

  -- The difficulty that the chain expects after ancestors with these timestamps.
  abbrev pub expected_after : List ℕ → ℕ
  expected_after ts =
      fractional_to_integer_difficulty float (replay float (float.of_ℕ initial_difficulty) ts)

  -- A header links to the one before it by its hash, is one higher and later, and has the expected
  -- difficulty and the work that it claims.
  abbrev pub IsNext : List ℕ → Hash256 → ℕ → ℕ → BlockHeader → Type 0
  IsNext ts prev_hash prev_height prev_ts h =
      (h.prev_hash ≡ prev_hash)
      × (h.height ≡ prev_height +u64 1)
      × (prev_ts < h.timestamp)
      × (h.difficulty_target ≡ expected_after ts)
      × (meets_difficulty ext h ≡ true)

  -- The second list is the first as far as each of its headers is next after the one before it,
  -- and no less far.
  abbrev pub IsLongestChain :
      List ℕ → Hash256 → ℕ → ℕ → List BlockHeader → List BlockHeader → Type 0
  IsLongestChain ts prev_hash prev_height prev_ts [] kept = kept ≡ []
  IsLongestChain ts prev_hash prev_height prev_ts (h ∷ headers) kept =
      (IsNext ts prev_hash prev_height prev_ts h
        × ((others : List BlockHeader) × (kept ≡ h ∷ others)
            × IsLongestChain (ts ++ h.timestamp ∷ []) (header_hash ext h) h.height h.timestamp
                headers others))
      ⊎ ((IsNext ts prev_hash prev_height prev_ts h → ⊥) × (kept ≡ []))

  follows_iff :
      (ts : List ℕ) (prev_hash : Hash256) (prev_height prev_ts : ℕ) (h : BlockHeader)
      → (follows env
            (replay float (float.of_ℕ initial_difficulty) ts)
            prev_hash
            prev_height
            prev_ts
            h
          ≡ true)
        ↔ IsNext ts prev_hash prev_height prev_ts h
  unfolding follows
  follows_iff ts prev_hash prev_height prev_ts h = (
    λ p. ground (arith, bytes_eq_iff h.prev_hash prev_hash),
    λ n. ground (arith, bytes_eq_iff h.prev_hash prev_hash),
  )

  accept_headers_longest :
      (ts : List ℕ) (prev_hash : Hash256) (prev_height prev_ts : ℕ) (headers : List BlockHeader)
      → (kept : List BlockHeader) × (accept_headers env ts
            (replay float (float.of_ℕ initial_difficulty) ts)
            prev_hash
            prev_height
            prev_ts
            headers
          ≡ map (header_hash ext) kept)
        × IsLongestChain ts prev_hash prev_height prev_ts headers kept
  unfolding accept_headers
  accept_headers_longest ts prev_hash prev_height prev_ts [] = ([], refl, refl)
  accept_headers_longest ts prev_hash prev_height prev_ts (h ∷ headers) =
      let first = float.of_ℕ initial_difficulty in
      let decide = follows_iff ts prev_hash prev_height prev_ts h in
      elim (Bool-cases (follows env (replay float first ts) prev_hash prev_height prev_ts h)) [
        | inl good ↦
            let (kept, hashes, longest) =
              accept_headers_longest (ts ++ h.timestamp ∷ []) (header_hash ext h) h.height
                h.timestamp headers in
            let hashes' = rw replay-append at hashes in
            (
              h ∷ kept,
              rw good (ap (λ t. header_hash ext h ∷ t) hashes'),
              inl (decide.0 good, (kept, refl, longest)),
            )
        | inr bad ↦ ([], rw bad refl, inr (λ n. cc (decide.1 n), refl))
      ]

  -- The hashes that come back are those of the first headers, exactly as far as each is next after
  -- the one before it: it links to it by its hash, is one higher and later, and has the difficulty
  -- that follows from the timestamps up to there and the work that it claims; the first follows a
  -- known header.
  pub validate_header_chain-IsLongestChain :
      (c : Chain F S) (first parent : BlockHeader) (headers : List BlockHeader)
      → get c.headers first.prev_hash ≡ some parent
      → (kept : List BlockHeader) × (validate_header_chain env c (first ∷ headers)
          ≡ map (header_hash ext) kept)
        × IsLongestChain
            (timestamps_of c.headers (reverse (chain_from_tip c.headers first.prev_hash)))
            first.prev_hash
            parent.height
            parent.timestamp
            (first ∷ headers)
            kept
  unfolding validate_header_chain accept_headers
  validate_header_chain-IsLongestChain c first parent headers found =
      let ts = timestamps_of c.headers (reverse (chain_from_tip c.headers first.prev_hash)) in
      let (kept, hashes, longest) =
        accept_headers_longest ts first.prev_hash parent.height parent.timestamp
          (first ∷ headers) in
      let same : validate_header_chain env c (first ∷ headers)
          ≡ accept_headers env ts (replay float (float.of_ℕ initial_difficulty) ts) first.prev_hash
              parent.height parent.timestamp (first ∷ headers) =
        rw (validate_header_chain, found) refl in
      (kept, same ∙ hashes, longest)
