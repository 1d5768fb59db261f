-- ===== src/Params.antt =====
-- core/params.rs: the consensus constants, the reward schedule and the network configuration.
pub mod Rewards
pub mod Supply
pub mod Network
pub mod Peers
