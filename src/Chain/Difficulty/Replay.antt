-- ===== src/Chain/Difficulty/Replay.antt =====
-- chain.rs: the replay of the difficulty, one timestamp after the other.
use equiforge.Prelude.{
  ℕ, zero, suc, ◌+◌, ◌-◌, ◌≤◌, ◌≡◌, refl, ap, ap₂, sym, ◌∙◌, arith, List, [], ◌∷◌, ◌++◌, take,
  take_all, length, length-append,
}
use equiforge.Chain.Difficulty.{Float, calculate_next_difficulty_fractional, replay_from, replay}

take-append_within : (n : ℕ) (xs ys : List ℕ) → n ≤ length xs → take n (xs ++ ys) ≡ take n xs
take-append_within zero xs ys h = refl
take-append_within (suc n) [] ys h = absurd (omega arith)
take-append_within (suc n) (x ∷ xs) ys h =
    ap (λ t. x ∷ t) (take-append_within n xs ys (omega arith))

module _ {F : Type 0} (float : Float F) where
  -- Later timestamps do not matter to the prefixes that end before them.
  replay_from-append :
      (left end : ℕ) (frac : F) (xs ys : List ℕ)
      → left + end ≤ length xs + 1
      → replay_from float left end frac (xs ++ ys) ≡ replay_from float left end frac xs
  unfolding replay_from
  replay_from-append zero end frac xs ys h = refl
  replay_from-append (suc left) end frac xs ys h = rw (take-append_within end xs ys (omega arith)) (
      replay_from-append left (suc end)
        (calculate_next_difficulty_fractional float frac (take end xs)) xs ys (omega arith))

  -- The last round, taken apart.
  replay_from-suc :
      (left end : ℕ) (frac : F) (xs : List ℕ)
      → replay_from float (suc left) end frac xs
        ≡ calculate_next_difficulty_fractional float
            (replay_from float left end frac xs)
            (take (left + end) xs)
  unfolding replay_from
  replay_from-suc zero end frac xs =
      let none_left : end ≡ 0 + end = omega arith in
      ap (λ n. calculate_next_difficulty_fractional float frac (take n xs)) none_left
  replay_from-suc (suc left) end frac xs =
      replay_from-suc left (suc end) (calculate_next_difficulty_fractional float frac (take end xs))
        xs
      ∙ ap
          (λ n.
            calculate_next_difficulty_fractional float
              (replay_from float left (suc end)
                (calculate_next_difficulty_fractional float frac (take end xs)) xs)
              (take n xs))
          (omega arith)

  replay_rounds :
      (n : ℕ) (frac : F) (xs : List ℕ)
      → length xs ≡ suc n
      → replay float frac xs ≡ replay_from float n 2 frac xs
  unfolding replay
  replay_rounds n frac xs e =
      let rounds : length xs - 1 ≡ n = omega (arith, e) in
      ap (λ k. replay_from float k 2 frac xs) rounds

  no_round : (frac : F) (xs : List ℕ) → length xs ≤ 1 → replay float frac xs ≡ frac
  unfolding replay replay_from
  no_round frac xs h =
      let none_left : length xs - 1 ≡ 0 = omega arith in
      ap (λ k. replay_from float k 2 frac xs) none_left

  adjust_first :
      (frac : F) (t : ℕ) → calculate_next_difficulty_fractional float frac (t ∷ []) ≡ frac
  unfolding calculate_next_difficulty_fractional
  adjust_first frac t = ground arith

  -- The replay of one timestamp more is one more adjustment.
  pub replay-append :
      (frac : F) (ts : List ℕ) (t : ℕ)
      → replay float frac (ts ++ t ∷ [])
        ≡ calculate_next_difficulty_fractional float (replay float frac ts) (ts ++ t ∷ [])
  replay-append frac [] t =
      no_round frac (t ∷ []) (omega arith)
      ∙ sym (adjust_first frac t)
      ∙ ap (λ f. calculate_next_difficulty_fractional float f (t ∷ []))
          (sym (no_round frac [] (omega arith)))
  replay-append frac (s ∷ ts) t =
      let whole = s ∷ (ts ++ t ∷ []) in
      let n = length ts in
      let longer : length (ts ++ t ∷ []) ≡ n + 1 = length-append ts (t ∷ []) in
      let all : take (n + 2) whole ≡ whole = take_all (n + 2) whole (omega (arith, longer)) in
      let before : replay_from float n 2 frac whole ≡ replay float frac (s ∷ ts) =
        replay_from-append n 2 frac (s ∷ ts) (t ∷ []) (omega arith)
        ∙ sym (replay_rounds n frac (s ∷ ts) refl) in
      replay_rounds (suc n) frac whole (omega (arith, longer))
      ∙ replay_from-suc n 2 frac whole
      ∙ ap₂ (calculate_next_difficulty_fractional float) before all
