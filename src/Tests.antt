-- ===== src/Tests.antt =====
-- Toy instances of what the program takes from outside, and concrete runs of the model.
mod Toy
mod Params
mod Types
mod Crypto
mod Utxos
mod Blocks
mod Network
mod Format
mod Storage
mod Pool
mod Wallet
mod Address
mod Pow
mod Mining
mod Relay
mod Protocol
mod Miner
