-- ===== src/Pool/Session.antt =====
-- pool/mod.rs: `handle_worker`, and the pool under every interleaving of its sections: the tasks of
-- the workers and the updater of the job lock it for one section each.
use equiforge.Prelude.{
  ℕ, ◌≤◌, ◌≡◌, arith, List, [], ◌∷◌, ◌++◌, Bytes, Option, none, some, length, nat_eq, if◌then◌else◌,
  length-keep_last, Option-cases, Bool-cases, bytes_eq, inl, inr, bytes_instance,
}
use equiforge.Prelude.Maps.{Map, get, insert, remove, get-insert, get-remove}
use equiforge.Types.{Hash256, Block}
use equiforge.Types.Externals.{Externals}
use equiforge.Chain.Difficulty.{Float}
use equiforge.Pool.Wire.{PoolMessage, register, job_cancel, share_rejected, bad_payout_address}
use equiforge.Pool.State.{
  Worker, PoolConfig, PoolState, new_pool, set_template, record_time, update_worker, record_share,
  make_job_msg,
}
use equiforge.Pool.Share.{claim_nonce, credit, count_block, count_submission, has_nonce}

-- A message, or none, as a list.
abbrev pub message_list : {F : Type 0} → Option (PoolMessage F) → List (PoolMessage F)
message_list none = []
message_list (some message) = message ∷ []

-- The worker of a connection, once it has registered, and what is sent to it.
pub record Registration (F : Type 0) : Type 0 where
  pub identity : Option (Bytes × Hash256)
  pub messages : List (PoolMessage F)

update_worker-times :
    (change : Worker → Worker) (name : Bytes) (workers : Map Bytes Worker)
    → ((w : Worker)
        → length w.recent_share_times ≤ 120
        → length (change w).recent_share_times ≤ 120)
    → ((n : Bytes) (w : Worker) → get workers n ≡ some w → length w.recent_share_times ≤ 120)
    → (n : Bytes) (w : Worker) → get (update_worker change name workers) n ≡ some w
    → length w.recent_share_times ≤ 120
unfolding update_worker
update_worker-times change name workers fine times n w e = elim (Option-cases (get workers name)) [
  | inl nobody ↦ times n w (rw (update_worker, nobody) at e)
  | inr (v, known) ↦
      let stored : get (insert name (change v) workers) n ≡ some w =
        rw (update_worker, known) at e in
      let looked = get-insert name n (change v) workers in
      elim (Bool-cases (bytes_eq name n)) [
        | inl same ↦
            let is : change v ≡ w = ground (arith, stored, looked) in
            rw is at (fine v (times name v known))
        | inr other ↦ times n w (ground (arith, stored, looked))
      ]
]

unfoldable pub new_worker : ℕ → Bytes → Hash256 → Worker
new_worker now name payout_hash = record {
  name = name;
  payout_hash = payout_hash;
  shares_accepted = 0;
  shares_submitted = 0;
  connected_at = now;
  recent_share_times = [];
}

module _ {F : Type 0} (hex_decode : Bytes → Option Bytes) where
  -- The registration, for the first message on the connection; `hex::decode` is a parameter.
  unfoldable pub identify : PoolMessage F → Registration F
  identify (register worker_name payout_address) = elim (hex_decode payout_address) [
    | none ↦ record { identity = none; messages = share_rejected bad_payout_address ∷ [] }
    | some bytes ↦
        if nat_eq (length bytes) 32
        then record { identity = some (worker_name, bytes); messages = [] }
        else record { identity = none; messages = share_rejected bad_payout_address ∷ [] }
  ]
  identify _ = record { identity = none; messages = [] }

module _ {F : Type 0} where
  unfoldable pub add_worker : ℕ → Bytes → Hash256 → PoolState F → PoolState F
  add_worker now name payout_hash ps = record ps {
    workers = insert name (new_worker now name payout_hash) ps.workers;
  }

  -- What a worker is sent when a block has come in.
  unfoldable pub renew_job : PoolState F → List (PoolMessage F)
  renew_job ps = job_cancel ∷ message_list (make_job_msg ps)

  unfoldable pub drop_worker : Bytes → PoolState F → PoolState F
  drop_worker name ps = record ps { workers = remove name ps.workers }

module _ {F : Type 0} (ext : Externals) (float : Float F) where
  -- One section that changes the pool.
  pub data Step : PoolState F → PoolState F → Type 0 where
    renew :
        (diff : ℕ) (template : Block) (ps : PoolState F) → Step ps (set_template diff template ps)
    join :
        (now : ℕ) (name : Bytes) (payout : Hash256) (ps : PoolState F)
        → Step ps (add_worker now name payout ps)
    leave : (name : Bytes) (ps : PoolState F) → Step ps (drop_worker name ps)
    claim : (name : Bytes) (nonce : ℕ) (ps : PoolState F) → Step ps (claim_nonce name nonce ps).1
    share :
        (now : ℕ) (name : Bytes) (payout : Hash256) (ps : PoolState F)
        → Step ps (credit ext float now name payout ps).1
    found : (ps : PoolState F) → Step ps (count_block ps)

  -- What a new pool can come to.
  pub data Reachable : PoolState F → Type 0 where
    start : (config : PoolConfig F) → Reachable (new_pool config)
    later : {ps ps' : PoolState F} → Reachable ps → Step ps ps' → Reachable ps'

  -- No buffer is longer than it may be.
  pub record IsBounded (ps : PoolState F) : Type 0 where
    pub window : length ps.pplns_window ≤ ps.config.pplns_window
    pub times :
        (name : Bytes) (w : Worker)
        → get ps.workers name ≡ some w
        → length w.recent_share_times ≤ 120

  new_worker-times :
      (now : ℕ) (name : Bytes) (payout : Hash256)
      → length (new_worker now name payout).recent_share_times ≤ 120
  unfolding new_worker
  new_worker-times now name payout = omega arith

  add_worker-times :
      (now : ℕ) (name : Bytes) (payout : Hash256) (ps : PoolState F)
      → IsBounded ps
      → (n : Bytes) (w : Worker) → get (add_worker now name payout ps).workers n ≡ some w
      → length w.recent_share_times ≤ 120
  unfolding add_worker
  add_worker-times now name payout ps bounded n w e =
      let looked = get-insert name n (new_worker now name payout) ps.workers in
      elim (Bool-cases (bytes_eq name n)) [
        | inl same ↦
            let is : new_worker now name payout ≡ w = ground (arith, e, looked) in
            rw is at (new_worker-times now name payout)
        | inr other ↦ bounded.times n w (ground (arith, e, looked))
      ]

  drop_worker-times :
      (name : Bytes) (ps : PoolState F)
      → IsBounded ps
      → (n : Bytes) (w : Worker) → get (drop_worker name ps).workers n ≡ some w
      → length w.recent_share_times ≤ 120
  unfolding drop_worker
  drop_worker-times name ps bounded n w e =
      bounded.times n w (ground (arith, e, get-remove name n ps.workers))

  record_time-times : (now : ℕ) (w : Worker) → length (record_time now w).recent_share_times ≤ 120
  unfolding record_time
  record_time-times now w = omega (arith, length-keep_last 120 (w.recent_share_times ++ now ∷ []))

  claim-IsBounded :
      (name : Bytes) (nonce : ℕ) (ps : PoolState F)
      → IsBounded ps
      → IsBounded (claim_nonce name nonce ps).1
  unfolding claim_nonce count_submission
  claim-IsBounded name nonce ps bounded =
      let times = update_worker-times count_submission name ps.workers (λ w h. h) bounded.times in
      elim (Bool-cases (has_nonce nonce ps.used_nonces)) [
        | inl used ↦ rw used (record { window = bounded.window; times = times })
        | inr new ↦ rw new (record { window = bounded.window; times = times })
      ]

  -- A section keeps the bounds.
  Step-IsBounded : {ps ps' : PoolState F} → Step ps ps' → IsBounded ps → IsBounded ps'
  unfolding set_template add_worker drop_worker credit record_share count_block
  Step-IsBounded (renew diff template ps) bounded = record {
    window = bounded.window;
    times = bounded.times;
  }
  Step-IsBounded (join now name payout ps) bounded = record {
    window = bounded.window;
    times = add_worker-times now name payout ps bounded;
  }
  Step-IsBounded (leave name ps) bounded = record {
    window = bounded.window;
    times = drop_worker-times name ps bounded;
  }
  Step-IsBounded (claim name nonce ps) bounded = claim-IsBounded name nonce ps bounded
  Step-IsBounded (share now name payout ps) bounded = record {
    window =
        omega
          (arith, length-keep_last ps.config.pplns_window (ps.pplns_window ++ (name, payout) ∷ []));
    times =
        update_worker-times (record_time now) name ps.workers (λ w h. record_time-times now w)
          bounded.times;
  }
  Step-IsBounded (found ps) bounded = record { window = bounded.window; times = bounded.times }

  -- However the sections of the workers' tasks and of the updater interleave, the window of shares
  -- holds no more than it is configured for, and no worker's buffer more than 120 times.
  pub Reachable-IsBounded : {ps : PoolState F} → Reachable ps → IsBounded ps
  unfolding new_pool get
  Reachable-IsBounded (start config) = record {
    window = omega arith;
    times = λ name w e. absurd (cc e);
  }
  Reachable-IsBounded (later before step) = Step-IsBounded step (Reachable-IsBounded before)
