-- ===== src/State.antt =====
-- The package state: accounts, the in-memory state with its Merkle root, and the application of
-- transactions.
pub mod Account
pub mod Key
pub mod Memory
pub mod Supply
pub mod Transitions
pub mod Payload
pub mod Applier
pub mod Payment
pub mod Keeps
pub mod Merkle
pub mod Commit
