-- ===== src/Miner/Search/Hits.antt =====
-- miner/mod.rs: what a scan of a range of nonces returns, and that it misses none.
use equiforge.Prelude.{
  ℕ, zero, suc, ◌+◌, ◌-◌, ◌%◌, ◌≤◌, ◌<◌, ◌≡◌, refl, arith, Bool, true, false, Bool-cases, inl, inr,
  some, ◌+u64◌, u64_mod,
}
use equiforge.Miner.Search.{first_hit}

-- The first hit is good, and lies in the range.
pub first_hit_sound :
    (good : ℕ → Bool) (left nonce n : ℕ)
    → nonce + left < u64_mod
    → first_hit good left nonce ≡ some n
    → (good n ≡ true) × (nonce ≤ n) × (n < nonce + left)
unfolding first_hit
first_hit_sound good zero nonce n fits e = absurd (cc)
first_hit_sound good (suc left) nonce n fits e = elim (Bool-cases (good nonce)) [
  | inl hit ↦ let here : nonce ≡ n = ground arith in ((rw here at hit), omega arith, omega arith)
  | inr miss ↦
      let next : (nonce + 1) % u64_mod ≡ nonce + 1 = omega arith in
      let (good_n, low, high) =
        first_hit_sound good left (nonce +u64 1) n (omega arith) (ground arith) in
      (good_n, omega arith, omega arith)
]

pub first_hit_good :
    (good : ℕ → Bool) (left nonce n : ℕ) → first_hit good left nonce ≡ some n → good n ≡ true
unfolding first_hit
first_hit_good good zero nonce n e = absurd (cc)
first_hit_good good (suc left) nonce n e = elim (Bool-cases (good nonce)) [
  | inl hit ↦ let here : nonce ≡ n = ground arith in (rw here at hit)
  | inr miss ↦ first_hit_good good left (nonce +u64 1) n (ground arith)
]

-- A good nonce in the range makes a hit.
pub first_hit_finds :
    (good : ℕ → Bool) (left nonce k : ℕ)
    → nonce + left < u64_mod
    → k < left
    → good (nonce + k) ≡ true
    → (n : ℕ) × (first_hit good left nonce ≡ some n)
unfolding first_hit
first_hit_finds good zero nonce k fits small hit = absurd (omega arith)
first_hit_finds good (suc left) nonce k fits small hit = elim (Bool-cases (good nonce)) [
  | inl here ↦ (nonce, (rw here refl))
  | inr miss ↦
      let next : (nonce + 1) % u64_mod ≡ nonce + 1 = omega arith in
      let not_here : 0 < k = positive k hit miss in
      let there : nonce + k ≡ (nonce + 1) % u64_mod + (k - 1) = omega arith in
      let (n, got) =
        first_hit_finds good left (nonce +u64 1) (k - 1) (omega arith) (omega arith)
          (rw there at hit) in
      (n, (rw miss got))
]
  where
    positive : (k : ℕ) → good (nonce + k) ≡ true → good nonce ≡ false → 0 < k
    positive zero hit miss = let same : nonce + 0 ≡ nonce = omega arith in absurd (cc)
    positive (suc k) hit miss = omega arith
