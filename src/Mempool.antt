-- ===== src/Mempool.antt =====
-- The package mempool: the pool of the transactions that wait for a block.
pub mod Index
pub mod Pool
pub mod Submit
pub mod Kept
pub mod Offered
pub mod Refused
pub mod Rollback
