-- ===== src/Types.antt =====
-- The package types: amounts, transactions, votes and the binary codecs.
pub mod Amount
pub mod Signature
pub mod Transaction
pub mod Contract
pub mod Vote
pub mod Commit
pub mod Event
pub mod Timestamp
pub mod Block
pub mod Evidence
