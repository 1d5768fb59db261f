-- ===== src/Network/Node.antt =====
-- network/mod.rs: `NodeState` and `PeerInfo`, and what a handler sends.
use equiforge.Prelude.{ℕ, Bool, List, [], ◌∷◌, Bytes, bytes_instance}
use equiforge.Prelude.Maps.{Map}
use equiforge.Types.{Hash256, Transaction, Block}
use equiforge.Chain.State.{Chain}
use equiforge.Network.Peers.{PeerScoreboard}
use equiforge.Network.Mempool.{Mempool}
use equiforge.Network.Message.{NetMessage}
use equiforge.Network.Compact.{PendingCompact}

pub record PeerInfo : Type 0 where
  pub address : Bytes
  pub listen_address : Bytes
  pub version : ℕ
  pub best_height : ℕ
  pub last_seen : ℕ
  pub supports_v2 : Bool

-- `NodeState`, but for its channels.
pub record NodeState (F S : Type 0) : Type 0 where
  pub chain : Chain F S
  pub mempool : Mempool F
  pub peers : Map Bytes PeerInfo
  pub scoreboard : PeerScoreboard
  pub known_addresses : List Bytes
  pub listen_port : ℕ
  pub pending_compacts : Map Hash256 PendingCompact

-- What a handler sends: to the peer, and on the two broadcast channels.
pub record Effects : Type 0 where
  pub replies : List NetMessage
  pub blocks : List Block
  pub transactions : List Transaction

abbrev pub silent : Effects
silent = record { replies = []; blocks = []; transactions = [] }

abbrev pub replying : NetMessage → Effects
replying message = record { replies = message ∷ []; blocks = []; transactions = [] }

abbrev pub relaying : Block → Effects
relaying block = record { replies = []; blocks = block ∷ []; transactions = [] }
