-- ===== src/Consensus.antt =====
-- consensus: tagged hashes and Merkle trees over them.
pub mod TaggedHash
pub mod Merkle
pub mod Fuel
pub mod Binding
