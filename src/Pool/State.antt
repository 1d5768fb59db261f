-- ===== src/Pool/State.antt =====
-- pool/mod.rs: `Worker`, `PoolConfig` and `PoolState`, and `refresh_template`.
use equiforge.Prelude.{
  ℕ, ◌-◌, ◌^◌, [], ◌∷◌, ◌++◌, List, Bytes, Option, none, some, length, get_or, replicate, keep_last,
  min, max, ltb, nat_eq, if◌then◌else◌, ◌+u64◌, bytes_instance,
}
use equiforge.Prelude.Maps.{Map, get, insert}
use equiforge.Types.{Hash256, Block}
use equiforge.Chain.Difficulty.{Float}
use equiforge.Chain.State.{Env, Chain}
use equiforge.Chain.Accept.{next_difficulty}
use equiforge.Miner.{MinerConfig, create_block_template}
use equiforge.Network.Mempool.{Mempool, get_pending}
use equiforge.Pool.Wire.{PoolMessage, job}

pub record Worker : Type 0 where
  pub name : Bytes
  pub payout_hash : Hash256
  pub shares_accepted : ℕ
  pub shares_submitted : ℕ
  pub connected_at : ℕ
  pub recent_share_times : List ℕ

pub record PoolConfig (F : Type 0) : Type 0 where
  pub port : ℕ
  pub fee_percent : F
  pub share_diff_offset : ℕ
  pub min_share_difficulty : ℕ
  pub pplns_window : ℕ
  pub pool_payout_hash : Hash256
  pub pool_name : Bytes

-- `used_nonces` is a set, here the nonces in the order of their insertion.
pub record PoolState (F : Type 0) : Type 0 where
  pub config : PoolConfig F
  pub workers : Map Bytes Worker
  pub job_id : ℕ
  pub current_template : Option Block
  pub network_target : ℕ
  pub share_target : ℕ
  pub used_nonces : List ℕ
  pub pplns_window : List (Bytes × Hash256)
  pub blocks_found : ℕ

-- `Worker::record_share`
unfoldable pub record_time : ℕ → Worker → Worker
record_time now w = record w {
  shares_accepted = w.shares_accepted +u64 1;
  recent_share_times = keep_last 120 (w.recent_share_times ++ now ∷ []);
}

abbrev pub pool_community_fund : Hash256
pool_community_fund = replicate 32 0xCF

-- b"pool:"
abbrev pub pool_tag : Bytes
pool_tag = b'p' ∷ b'o' ∷ b'o' ∷ b'l' ∷ b':' ∷ []

-- b"EquiForge-Pool"
abbrev pub default_name : Bytes
default_name =
    b'E' ∷ b'q' ∷ b'u' ∷ b'i' ∷ b'F' ∷ b'o' ∷ b'r' ∷ b'g' ∷ b'e' ∷ b'-' ∷ b'P' ∷ b'o' ∷ b'o' ∷ b'l'
    ∷ []

-- `if let Some(w) = self.workers.get_mut(name)`
unfoldable pub update_worker : (Worker → Worker) → Bytes → Map Bytes Worker → Map Bytes Worker
update_worker change name workers = elim (get workers name) [
  | none ↦ workers
  | some w ↦ insert name (change w) workers
]

module _ {F : Type 0} where
  unfoldable pub new_pool : PoolConfig F → PoolState F
  new_pool config = record {
    config = config;
    workers = [];
    job_id = 0;
    current_template = none;
    network_target = 0;
    share_target = 0;
    used_nonces = [];
    pplns_window = [];
    blocks_found = 0;
  }

  unfoldable pub compute_share_target : PoolConfig F → ℕ → ℕ
  compute_share_target config network_diff =
      max (network_diff - config.share_diff_offset) config.min_share_difficulty

  -- `PoolState::record_share`
  unfoldable pub record_share : ℕ → Bytes → Hash256 → PoolState F → PoolState F
  unfolding update_worker record_time
  record_share now worker_name payout_hash ps = record ps {
    workers = update_worker (record_time now) worker_name ps.workers;
    pplns_window =
        keep_last ps.config.pplns_window (ps.pplns_window ++ (worker_name, payout_hash) ∷ []);
  }

  unfoldable pub make_job_msg : PoolState F → Option (PoolMessage F)
  make_job_msg ps = elim ps.current_template [
    | none ↦ none
    | some tpl ↦ some (job ps.job_id tpl.header ps.share_target ps.network_target)
  ]

  -- The last section of `refresh_template`: the pool takes the template on.
  unfoldable pub set_template : ℕ → Block → PoolState F → PoolState F
  set_template network_diff template ps = record ps {
    job_id = ps.job_id +u64 1;
    network_target = network_diff;
    share_target = compute_share_target ps.config network_diff;
    current_template = some template;
    used_nonces = [];
  }

module _ {F : Type 0} (float : Float F) where
  unfoldable pub default_config : PoolConfig F
  default_config = record {
    port = 9334;
    fee_percent = float.of_ℕ 1;
    share_diff_offset = 4;
    min_share_difficulty = 4;
    pplns_window = 10000;
    pool_payout_hash = replicate 32 0xFE;
    pool_name = default_name;
  }

  -- `recent.first()` and `recent.last()`, of the last 30 times at most.
  unfoldable pub hashrate_estimate : ℕ → Worker → F
  hashrate_estimate share_diff w =
      let buf = w.recent_share_times in
      let window = min (length buf) 30 in
      let recent = keep_last window buf in
      let elapsed = get_or recent (length recent - 1) 0 - get_or recent 0 0 in
      let hashes_per_share = float.of_ℕ (2 ^ min share_diff 63) in
      if ltb (length buf) 2
      then float.of_ℕ 0
      else if nat_eq elapsed 0
      then float.of_ℕ 0
      else float.div (float.mul (float.of_ℕ window) hashes_per_share) (float.of_ℕ elapsed)

  unfoldable pub sum_hashrates : ℕ → F → Map Bytes Worker → F
  sum_hashrates share_diff sum [] = sum
  sum_hashrates share_diff sum ((_, w) ∷ workers) =
      sum_hashrates share_diff (float.add sum (hashrate_estimate share_diff w)) workers

  unfoldable pub pool_hashrate : PoolState F → F
  pool_hashrate ps = sum_hashrates ps.share_target (float.of_ℕ 0) ps.workers

module _ {F S : Type 0} (env : Env F S) where
  open env use {ext}

  -- The whole of it, at a time `now`. Without a header of the tip the task panics, and the pool
  -- stays as it is.
  unfoldable pub refresh_template : ℕ → Chain F S → Mempool F → PoolState F → PoolState F
  unfolding set_template
  refresh_template now chain mempool ps =
      let network_diff = next_difficulty env chain in
      let miner_cfg : MinerConfig = record {
        miner_pubkey_hash = ps.config.pool_payout_hash;
        community_fund_hash = pool_community_fund;
        threads = 1;
        miner_tag = pool_tag ++ ps.config.pool_name;
      } in
      elim (create_block_template env now chain (get_pending env mempool) miner_cfg) [
        | none ↦ ps
        | some template ↦ set_template network_diff template ps
      ]
