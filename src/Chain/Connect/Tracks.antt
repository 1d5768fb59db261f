-- ===== src/Chain/Connect/Tracks.antt =====
-- chain.rs: what is known of the undo record and of the UTXO set while a block is connected.
use equiforge.Prelude.{
  ℕ, suc, ◌%◌, ◌≡◌, ◌≢◌, refl, arith, Bool, true, false, ◌||◌, List, [], ◌∷◌, ◌++◌, none, some,
  if◌then◌else◌, u32_mod, All, Option-cases, inl, inr,
}
use equiforge.Prelude.Maps.{get, insert, remove, get-insert, get-remove}
use equiforge.Types.{
  Hash256, OutPoint, TxInput, TxOutput, outpoint_eq, outpoint_eq_iff, outpoint_instance,
}
use equiforge.Chain.Utxo.{UtxoEntry, UtxoSet, add, spend}
use equiforge.Chain.Connect.{
  Progress, no_undo, note_spent, spend_inputs, create_outputs, remove_created, restore_spent,
  disconnect_block_utxos,
}

abbrev in_created : OutPoint → List OutPoint → Bool
in_created j [] = false
in_created j (op ∷ ops) = outpoint_eq op j || in_created j ops

abbrev in_spent : OutPoint → List (OutPoint × UtxoEntry) → Bool
in_spent j [] = false
in_spent j ((op, _) ∷ spent) = outpoint_eq op j || in_spent j spent

in_created-append :
    (j op : OutPoint) (ops : List OutPoint)
    → in_created j (ops ++ op ∷ []) ≡ (in_created j ops || outpoint_eq op j)
in_created-append j op [] = ground arith
in_created-append j op (x ∷ ops) = ground (arith, in_created-append j op ops)

in_spent-append :
    (j op : OutPoint) (e : UtxoEntry) (spent : List (OutPoint × UtxoEntry))
    → in_spent j (spent ++ (op, e) ∷ []) ≡ (in_spent j spent || outpoint_eq op j)
in_spent-append j op e [] = ground arith
in_spent-append j op e ((x, _) ∷ spent) = ground (arith, in_spent-append j op e spent)

module _ (before : UtxoSet) where
  abbrev pub Absent : OutPoint → Type 0
  Absent op = get before op ≡ none

  abbrev Known : OutPoint × UtxoEntry → Type 0
  Known x = get before x.0 ≡ some x.1

  All-Absent :
      (j : OutPoint) (ops : List OutPoint) → All Absent ops → in_created j ops ≡ true → Absent j
  All-Absent j [] h m = cc
  All-Absent j (op ∷ ops) h m = ground (arith, All-Absent j ops h.1, outpoint_eq_iff op j)

  All-Known :
      (j : OutPoint) (spent : List (OutPoint × UtxoEntry))
      → All Known spent
      → in_spent j spent ≡ true
      → get before j ≢ none
  All-Known j [] h m = cc
  All-Known j (x ∷ spent) h m = ground (arith, All-Known j spent h.1, outpoint_eq_iff x.0 j)

  All-Absent-append :
      (op : OutPoint) (ops : List OutPoint)
      → All Absent ops
      → Absent op
      → All Absent (ops ++ op ∷ [])
  All-Absent-append op [] h k = (k, tt)
  All-Absent-append op (x ∷ ops) h k = (h.0, All-Absent-append op ops h.1 k)

  All-Known-append :
      (x : OutPoint × UtxoEntry) (spent : List (OutPoint × UtxoEntry))
      → All Known spent
      → Known x
      → All Known (spent ++ x ∷ [])
  All-Known-append x [] h k = (k, tt)
  All-Known-append x (y ∷ spent) h k = (h.0, All-Known-append x spent h.1 k)

  -- While a block is connected to the set `before`: what was created was not there, what was spent
  -- was there and is gone, and nothing else has changed.
  pub record Tracks (p : Progress) : Type 0 where
    pub created : All Absent p.1.created
    pub spent : All Known p.1.spent
    gone : (j : OutPoint) → in_spent j p.1.spent ≡ true → get p.0 j ≡ none
    same :
        (j : OutPoint)
        → in_created j p.1.created ≡ false
        → in_spent j p.1.spent ≡ false
        → get p.0 j ≡ get before j

  pub Tracks-no_undo : Tracks (before, no_undo)
  Tracks-no_undo = record { created = tt; spent = tt; gone = λ j h. cc; same = λ j h k. refl }

  -- What is in the set at a place that was filled before is what was there before.
  entry-Known :
      (p : Progress) (op : OutPoint) (e : UtxoEntry)
      → Tracks p
      → get before op ≢ none
      → get p.0 op ≡ some e
      → Known (op, e)
  entry-Known p op e t present found =
      ground (arith, All-Absent op p.1.created t.created, t.gone op, t.same op)

  Tracks-spend :
      (p : Progress) (op : OutPoint)
      → Tracks p
      → get before op ≢ none
      → Tracks ((spend op p.0).1, note_spent op p.1 (spend op p.0).0)
  unfolding spend note_spent
  Tracks-spend p op t present = elim (Option-cases (get p.0 op)) [
    | inl missing ↦ rw missing (record {
      created = t.created;
      spent = t.spent;
      gone = λ j h. ground (arith, get-remove op j p.0, t.gone j h);
      same =
          λ j h k. ground (arith, get-remove op j p.0, t.same j h k, outpoint_eq_iff op j, missing);
    })
    | inr (e, found) ↦ rw found (record {
      created = t.created;
      spent = All-Known-append (op, e) p.1.spent t.spent (entry-Known p op e t present found);
      gone = λ j h. ground (
        arith,
        get-remove op j p.0,
        in_spent-append j op e p.1.spent,
        t.gone j,
        outpoint_eq_iff op j,
      );
      same = λ j h k. ground (
        arith,
        get-remove op j p.0,
        in_spent-append j op e p.1.spent,
        t.same j,
        outpoint_eq_iff op j,
      );
    })
  ]

  Tracks-create :
      (p : Progress) (op : OutPoint) (e : UtxoEntry)
      → Tracks p
      → Absent op
      → Tracks (add op e p.0, record p.1 { created = p.1.created ++ op ∷ [] })
  unfolding add
  Tracks-create p op e t fresh = record {
    created = All-Absent-append op p.1.created t.created fresh;
    spent = t.spent;
    gone = λ j h. ground (
      arith,
      get-insert op j e p.0,
      t.gone j h,
      All-Known j p.1.spent t.spent h,
      outpoint_eq_iff op j,
    );
    same = λ j h k.
        ground (arith, get-insert op j e p.0, in_created-append j op p.1.created, t.same j);
  }

  -- Every input of a transaction refers to an output that is there.
  abbrev pub Spendable : List TxInput → Type 0
  Spendable inputs = All (λ i. get before i.previous_output ≢ none) inputs

  pub Tracks-spend_inputs :
      (p : Progress) (inputs : List TxInput)
      → Tracks p
      → Spendable inputs
      → Tracks (spend_inputs p inputs)
  unfolding spend_inputs
  Tracks-spend_inputs p [] t h = t
  Tracks-spend_inputs p (input ∷ inputs) t h =
      let op = input.previous_output in
      Tracks-spend_inputs ((spend op p.0).1, note_spent op p.1 (spend op p.0).0) inputs
        (Tracks-spend p op t h.0) h.1

  pub Tracks-create_outputs :
      (txid : Hash256) (height : ℕ) (coinbase : Bool) (p : Progress) (vout : ℕ)
      (outputs : List TxOutput)
      → Tracks p
      → ((n : ℕ) → Absent (record { txid = txid; vout = n }))
      → Tracks (create_outputs txid height coinbase p vout outputs)
  unfolding create_outputs
  Tracks-create_outputs txid height coinbase p vout [] t fresh = t
  Tracks-create_outputs txid height coinbase p vout (output ∷ outputs) t fresh =
      let op : OutPoint = record { txid = txid; vout = vout % u32_mod } in
      let entry : UtxoEntry = record { output = output; height = height; is_coinbase = coinbase } in
      Tracks-create_outputs txid height coinbase
        (add op entry p.0, record p.1 { created = p.1.created ++ op ∷ [] }) (suc vout) outputs
        (Tracks-create p op entry t (fresh (vout % u32_mod))) fresh

  get-remove_created :
      (j : OutPoint) (ops : List OutPoint) (set : UtxoSet)
      → get (remove_created ops set) j ≡ (if in_created j ops then none else get set j)
  unfolding remove_created spend
  get-remove_created j [] set = refl
  get-remove_created j (op ∷ ops) set =
      ground (arith, get-remove_created j ops (remove op set), get-remove op j set)

  get-restore_spent :
      (j : OutPoint) (spent : List (OutPoint × UtxoEntry)) (set : UtxoSet)
      → All Known spent
      → get (restore_spent spent set) j ≡ (if in_spent j spent then get before j else get set j)
  unfolding restore_spent add
  get-restore_spent j [] set h = refl
  get-restore_spent j ((op, e) ∷ spent) set h = ground (
    arith,
    get-restore_spent j spent (insert op e set) h.1,
    get-insert op j e set,
    outpoint_eq_iff op j,
  )

  pub disconnect-Tracks :
      (p : Progress) (j : OutPoint)
      → Tracks p
      → get (disconnect_block_utxos p.1 p.0) j ≡ get before j
  unfolding disconnect_block_utxos
  disconnect-Tracks p j t = ground (
    arith,
    get-restore_spent j p.1.spent (remove_created p.1.created p.0) t.spent,
    get-remove_created j p.1.created p.0,
    All-Absent j p.1.created t.created,
    t.same j,
  )
