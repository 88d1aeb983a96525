-- ===== src/Types/Contract.antt =====
-- The contract messages of types: deployment, call, and the metadata of a deployed contract.
pub mod Deploy
pub mod Call
pub mod Meta
