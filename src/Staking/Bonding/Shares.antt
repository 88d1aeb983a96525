-- ===== src/Staking/Bonding/Shares.antt =====
-- The shares of the rewards.
use dsn.Prelude.{ℕ, ◌≡◌, List, ◌∷◌, arith, IsU64}
use dsn.Staking.Validator.{Validator}
use dsn.Staking.Bonding.{portions, sum64, add_remainder, reward_shares}

-- The shares of a pool that fits a uint64, among at least one validator, add up to the pool,
-- whatever the powers: the remainder of the divisions, and of the products where they wrap, goes
-- to the first validator.
sum64-reward_shares :
    (pool power : ℕ) (v : Validator) (vs : List Validator)
    → IsU64 pool
    → sum64 (reward_shares pool power (v ∷ vs)) ≡ pool
unfolding reward_shares portions sum64 add_remainder
sum64-reward_shares pool power v vs h = ground arith
