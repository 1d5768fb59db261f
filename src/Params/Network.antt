-- ===== src/Params/Network.antt =====
-- core/params.rs: the network configuration, set once at the start of the program.
use Prim.Native.String.{String}
use equiforge.Prelude.{ℕ, ◌+◌, Bool, List, [], ◌∷◌, Option, none, some, if◌then◌else◌, Bytes}

pub record NetworkConfig : Type 0 where
  pub name : String
  pub magic : Bytes
  pub default_port : ℕ
  pub default_rpc_port : ℕ
  pub genesis_timestamp : ℕ
  pub data_dir : String
  pub seed_nodes : List String

-- The configuration that `init_network` builds from the `--testnet` flag.
unfoldable pub network_config : Bool → NetworkConfig
network_config testnet =
    if testnet
    then record {
      name = "testnet";
      magic = 0xEF ∷ 0x01 ∷ 0xF0 ∷ 0x99 ∷ [];
      default_port = 19333;
      default_rpc_port = 19332;
      genesis_timestamp = 1735689600 + 1;
      data_dir = "equiforge_testnet";
      seed_nodes = "129.80.239.237:19333" ∷ [];
    }
    else record {
      name = "mainnet";
      magic = 0xEF ∷ 0x01 ∷ 0xF0 ∷ 0x42 ∷ [];
      default_port = 9333;
      default_rpc_port = 9332;
      genesis_timestamp = 1735689600;
      data_dir = "equiforge_data";
      seed_nodes = "129.80.239.237:9333" ∷ [];
    }

-- The content of the static `NETWORK`; `none` before the first `init_network`. The outer `none`
-- of the result is the panic of a second one.
unfoldable pub init_network : Bool → Option NetworkConfig → Option (Option NetworkConfig)
init_network testnet none = some (some (network_config testnet))
init_network testnet (some config) = none
