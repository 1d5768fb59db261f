-- ===== src/Lib.antt =====
-- EquiForge: a model of the node, its storage, wallet and mining pool, and what is proved of them.
--
-- Each part of src/ has a module named for it. Paths below are from the repository's root.
--
-- src/core/params.rs is Params: Params.Rewards has the constants, `block_reward`,
-- `community_fund_amount` and `miner_reward`; Params.Network the configuration; Params.Supply adds
-- the rewards up.
--
-- src/core/types.rs is Types: Types.Data has the structs, Types.Coinbase `new_coinbase`,
-- `is_coinbase`, `coinbase_tag` and `total_output`, Types.Bits `leading_zero_bits` and
-- `meets_difficulty`, Types.Merkle the Merkle root. Types.Externals is what comes from other
-- packages, as a record that everything else takes as an argument: SHA-256, bincode's encodings,
-- the check of an ed25519 signature; and the proof-of-work hash, which Pow.with_pow fills with
-- that of src/pow/mod.rs.
--
-- src/pow/mod.rs is Pow: `equihash_x` by its three phases, over what `sha2` and `blake3` offer.
--
-- src/crypto/txid.rs and src/crypto/mod.rs are Crypto: Crypto.Hashes has the strings that are
-- hashed, `txid_v1`, `wtxid_v1`, `tx_signing_hash_v1` and `verify_signature`.
--
-- src/core/script.rs is Script: Script.Encoding has the builders and parsers, Script.Spend
-- `validate_p2pkh_spend`.
--
-- src/core/chain.rs is Chain. Chain.State has the struct `Chain`. Chain.Utxo is `UtxoSet`,
-- Chain.Validate `validate_transaction` and `calculate_block_fees`, Chain.BlockRules the rules on
-- the transactions of a block, Chain.Connect `connect_block_utxos` and `disconnect_block_utxos`,
-- Chain.Difficulty the LWMA difficulty and `block_work`, Chain.Genesis `new` and `reset`,
-- Chain.Load `open` and `load_from_storage`, Chain.Persist what is written to storage, Chain.Reorg
-- `chain_from_tip` and `reorg_to`, Chain.Accept `add_block`, Chain.Headers the headers-first
-- interface and the accessors, Chain.Errors `BlockError`. Chain.Stored has the stored forms of
-- src/storage/mod.rs and the operations of `Storage` that the chain calls, as a record.
-- `tx_signing_hash` of src/wallet/mod.rs, which the legacy authorisation checks, is in
-- Chain.Validate.
--
-- src/miner/mod.rs is Miner: `create_block_template`; Miner.Search has `mine_block` and
-- `mine_block_parallel`, with what the threads see of the stop flag and the clock as arguments.
--
-- src/storage/mod.rs is Storage: Storage.Sled is what it takes from `sled` and `bincode`,
-- Storage.Keys the keys, Storage.Db the methods of `Storage`, Storage.Ops the records of
-- operations that the chain takes as arguments, filled with them. Storage.Db.Refinement relates
-- the database to a map from keys to entries.
--
-- src/wallet/mod.rs is Wallet: Wallet.Keys has `Keypair` over what `ed25519_dalek` offers (Signer)
-- and documents (IsLawful), Wallet.Cipher `derive_key`, `encrypt_data` and `decrypt_data`,
-- Wallet.File the wallet with its file, Wallet.Coins `select_utxos`, Wallet.Send `create_send_tx`,
-- Wallet.Base58 `bs58_encode` and `bs58_decode`, Wallet.Address the addresses. Their random
-- numbers are arguments, and `expect` and an index out of range are errors.
--
-- src/pool/mod.rs is Pool: Pool.Wire the messages and their framing, Pool.State the state and
-- `refresh_template`, Pool.Share `process_share` by the sections for which it locks the pool,
-- Pool.Miner the client of src/pool/pool_miner.rs, Pool.Session the registration of workers and a
-- step relation whose steps are those sections, in any order. A stream is the bytes still to be
-- read.
--
-- src/network/mod.rs is Network: Network.Mempool has `Mempool`, Network.Peers `PeerScoreboard`,
-- `Offense` and `PeerRateLimiter`, Network.Locator `build_locator`, Network.Message `NetMessage`
-- with its framing, Network.Compact `PendingCompact`, Network.Node `NodeState`, Network.Relay the
-- arms of `handle_message` for new blocks, transactions and compact blocks, Network.Serve those
-- that answer and change nothing, Network.Sync those for blocks, headers and addresses that were
-- asked for, Network.Handler `handle_message` itself, Network.Connection `handle_connection`,
-- Network.Maintenance `start_node` and what is around it. A handler takes the state of the node to
-- what it sends and the state after it; a connection is a list of events with their times, the
-- results of `read_message` among them.
--
-- Methods that change the chain are functions from a chain to a result and a chain (Chain.Action):
-- what was changed before an error stays changed. The clock is an argument. Numbers are natural
-- numbers; `+` on a u64 or a u32 wraps, as in a release build, and saturates where the source says
-- so. A HashMap is an association list with one entry for each key (Prelude.Maps); its order,
-- which the source does not fix, puts the latest insertion first. Floating-point numbers are a
-- record of operations (Chain.Difficulty.Float), so that what is proved holds whatever their
-- rounding.
--
-- Loops recur on their lists. Four have fuel. The Merkle loop is given the number of hashes, which
-- is enough, since each round halves them. The walk back along `prev_hash` is given the height of
-- its first header and two, which is enough where heights rise from parent to child, as
-- `add_block` demands of every header. The loop of the locator is bounded by the number of hashes
-- that it is asked for. The loop that writes base 58 has two rounds for each byte, which is
-- enough, since 58 * 58 is above 256; `chunks` as many as there are items.
--
-- Not modelled: sled, which is an argument; sockets, tasks, locks and the files of the anchors in
-- src/network/mod.rs; mining_loop of src/miner/mod.rs; the session loop of src/pool/pool_miner.rs;
-- src/rpc and src/main.rs; the loops of src/pool/mod.rs that wait for messages; formatting of
-- messages. `let _ =` discards the results of the writes to storage, so each write is the state
-- that it leaves; the writes of `persist_genesis`, of the wallet's file and to a peer are taken to
-- succeed.
pub mod Prelude
pub mod Params
pub mod Types
pub mod Crypto
pub mod Script
pub mod Pow
pub mod Chain
pub mod Miner
pub mod Storage
pub mod Wallet
pub mod Pool
pub mod Network
pub mod Tests
