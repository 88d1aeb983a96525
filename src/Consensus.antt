-- ===== src/Consensus.antt =====
-- The package consensus: votes and commit proofs, evidence, the transitions of an epoch, and the
-- building and validation of blocks.
pub mod Snapshot
pub mod Voting
pub mod Proposer
pub mod Certificate
pub mod Misbehaviour
pub mod System
pub mod Execution
pub mod Building
pub mod Validation
