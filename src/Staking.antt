-- ===== src/Staking.antt =====
-- The package staking: validators, their registry, bonding and slashing, and epochs.
pub mod Validator
pub mod Registry
pub mod Active
pub mod Rewards
pub mod Bonding
pub mod Slashing
pub mod Epoch
pub mod Economics
