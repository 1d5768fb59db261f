-- ===== src/Chain/Load/Laws.antt =====
-- What is loaded: the height index of the storage, up to the height.
use equiforge.Prelude.{
  ℕ, zero, suc, ◌+◌, ◌≤◌, ◌<◌, ◌≡◌, ◌≢◌, true, false, refl, arith, Option, none, some, Result, ok,
  err, >>=-eq-ok, ok-injective, nat_eq, nat_eq_iff, Bool-cases, inl, inr, if◌then◌else◌, ℕ_eq, ap,
  ◌∙◌, sym,
}
use equiforge.Prelude.Maps.{get, insert, get-insert}
use equiforge.Types.{Hash256, BlockHeader, Block}
use equiforge.Chain.State.{Env, Chain}
use equiforge.Chain.Load.{
  StorageReads, LoadError, Loaded, nothing_loaded, with_header, with_block, or_storage_error,
  no_tip, no_height, some_or, load_at, load_heights, load_from_storage,
}

or_storage_error_ok :
    {A E : Type 0} → (r : Result E A) (a : A) → or_storage_error r ≡ ok a → r ≡ ok a
unfolding or_storage_error
or_storage_error_ok (ok b) a e = cc
or_storage_error_ok (err x) a e = absurd (cc)

index-with_header :
    (hash : Hash256) (header : Option BlockHeader) (st : Loaded)
    → (with_header hash header st).height_index ≡ st.height_index
unfolding with_header
index-with_header hash none st = refl
index-with_header hash (some header) st = refl

index-with_block :
    (hash : Hash256) (block : Option Block) (st : Loaded)
    → (with_block hash block st).height_index ≡ st.height_index
unfolding with_block
index-with_block hash none st = refl
index-with_block hash (some block) st = refl

nat_eq-apart : (a b : ℕ) → a ≢ b → nat_eq a b ≡ false
nat_eq-apart a b h = ground arith

nat_eq-same : (a : ℕ) → nat_eq a a ≡ true
nat_eq-same a = ground arith

module _ {F S E : Type 0} (reads : StorageReads F S E) where
  -- One round binds its own height, if the storage has a hash for it, and no other.
  load_at-index :
      (s : S) (h k : ℕ) (hash : Option Hash256) (st st' : Loaded)
      → load_at reads s h hash st ≡ ok st'
      → get st.height_index h ≡ none
      → get st'.height_index k ≡ (if nat_eq h k then hash else get st.height_index k)
  unfolding load_at
  load_at-index s h k none st st' e free =
      let same : st ≡ st' = cc in
      elim (Bool-cases (nat_eq h k)) [
        | inl here ↦ rw (here, ← same, ← (nat_eq_iff h k).0 here) free
        | inr other ↦ rw (other, same) refl
      ]
  load_at-index s h k (some hash) st st' e free =
      let (header, _, e₁) = >>=-eq-ok (or_storage_error (reads.get_header s hash)) _ e in
      let (block, _, e₂) = >>=-eq-ok (or_storage_error (reads.get_block s hash)) _ e₁ in
      let loaded = with_block hash block (with_header hash header st) in
      let same : loaded.height_index ≡ st.height_index =
        index-with_block hash block (with_header hash header st)
        ∙ index-with_header hash header st in
      let final : insert h hash loaded.height_index ≡ st'.height_index = cc e₂ in
      rw (← final, same) (get-insert h k hash st.height_index)

  -- The rounds bind their heights as the storage does, and no height before them.
  load_heights-index :
      (s : S) (left h : ℕ) (st st' : Loaded)
      → load_heights reads s left h st ≡ ok st'
      → ((k : ℕ) → h ≤ k → get st.height_index k ≡ none)
      → ((k : ℕ) → k < h → get st'.height_index k ≡ get st.height_index k)
        × ((k : ℕ)
            → h ≤ k
            → k < h + left
            → reads.get_hash_at_height s k ≡ ok (get st'.height_index k))
  unfolding load_heights
  load_heights-index s zero h st st' e free =
      let same : st ≡ st' = cc in (λ k less. rw same refl, λ k at_least less. absurd (omega arith))
  load_heights-index s (suc left) h st st' e free =
      let (hash, e₁, e₂) = >>=-eq-ok (or_storage_error (reads.get_hash_at_height s h)) _ e in
      let (mid, first, others) = >>=-eq-ok (load_at reads s h hash st) _ e₂ in
      let here = λ (k : ℕ). load_at-index s h k hash st mid first (free h (omega arith)) in
      let (before, after) = load_heights-index s left (suc h) mid st' others (λ k less.
        here k ∙ (rw (nat_eq-apart h k (λ q. absurd (omega arith))) (free k (omega arith)))) in
      let at_h : get mid.height_index h ≡ hash = here h ∙ (rw (nat_eq-same h) refl) in
      (
        λ k less.
            before k (omega arith)
            ∙ here k
            ∙ (rw (nat_eq-apart h k (λ q. absurd (omega arith))) refl),
        λ k at_least less. elim (Bool-cases (nat_eq h k)) [
          | inl same ↦ rw (← (nat_eq_iff h k).0 same) (
              or_storage_error_ok (reads.get_hash_at_height s h) hash e₁
              ∙ ap (λ o. ok o) (sym (before h (omega arith) ∙ at_h)))
          | inr other ↦ after k (ground arith) (omega arith)
        ],
      )

some_or_ok :
    {A E : Type 0} → (o : Option A) (x : LoadError E) (a : A) → some_or o x ≡ ok a → o ≡ some a
unfolding some_or
some_or_ok none x a e = absurd (cc)
some_or_ok (some b) x a e = cc

module _ {F S E : Type 0} (reads : StorageReads F S E) (env : Env F S) where
  -- A chain that is loaded has the tip and the height of the storage, and up to that height the
  -- storage's hash at every height, or none where the storage has none.
  pub load_from_storage-index :
      (s : S) (c : Chain F S)
      → load_from_storage reads env s ≡ ok c
      → (reads.get_tip s ≡ ok (some c.tip))
        × (reads.get_height s ≡ ok (some c.height))
        × ((h : ℕ) → h ≤ c.height → reads.get_hash_at_height s h ≡ ok (get c.height_index h))
  unfolding load_from_storage get
  load_from_storage-index s c e =
      let (found_tip, e₁, f₁) = >>=-eq-ok (or_storage_error (reads.get_tip s)) _ e in
      let (tip, e₂, f₂) = >>=-eq-ok (some_or found_tip no_tip) _ f₁ in
      let (found_height, e₃, f₃) = >>=-eq-ok (or_storage_error (reads.get_height s)) _ f₂ in
      let (height, e₄, f₄) = >>=-eq-ok (some_or found_height no_height) _ f₃ in
      let (timestamps, e₅, f₅) = >>=-eq-ok (or_storage_error (reads.get_timestamps s)) _ f₄ in
      let (frac, e₆, f₆) = >>=-eq-ok (or_storage_error (reads.get_fractional_difficulty s)) _ f₅ in
      let (st, e₇, f₇) = >>=-eq-ok (load_heights reads s (height + 1) 0 nothing_loaded) _ f₆ in
      let (utxos, e₈, f₈) = >>=-eq-ok (or_storage_error (reads.load_all_utxos s)) _ f₇ in
      let made = ok-injective _ c f₈ in
      let same_tip : tip ≡ c.tip = ap (λ (x : Chain F S). x.tip) made in
      let same_height : height ≡ c.height = ap (λ (x : Chain F S). x.height) made in
      let same_index : st.height_index ≡ c.height_index =
        ap (λ (x : Chain F S). x.height_index) made in
      let tip_read = or_storage_error_ok (reads.get_tip s) found_tip e₁ in
      let height_read = or_storage_error_ok (reads.get_height s) found_height e₃ in
      let loaded =
        load_heights-index reads s (height + 1) 0 nothing_loaded st e₇ (λ k at_least. refl) in
      (
        tip_read ∙ ap (λ o. ok o) (some_or_ok found_tip no_tip tip e₂ ∙ ap (λ t. some t) same_tip),
        height_read
            ∙ ap (λ o. ok o)
                (some_or_ok found_height no_height height e₄ ∙ ap (λ n. some n) same_height),
        λ h less. rw (← same_index) (loaded.1 h (omega arith) (omega (arith, same_height))),
      )
