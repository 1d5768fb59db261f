-- ===== src/Params/Peers.antt =====
-- core/params.rs: the constants of the peer protocol.
use equiforge.Prelude.{ℕ}

abbrev pub min_protocol_version : ℕ
min_protocol_version = 4

abbrev pub max_outbound_peers : ℕ
max_outbound_peers = 12

abbrev pub max_peers : ℕ
max_peers = 256
