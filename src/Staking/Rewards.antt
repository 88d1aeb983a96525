-- ===== src/Staking/Rewards.antt =====
-- staking/staking.go: DistributeRewards, the split of the fees and the payment of the validators.
pub mod Fees
use dsn.Prelude.{ℕ, List, [], ◌∷◌, ◌==◌, ◌||◌, if◌then◌else◌, length}
use dsn.Exec.{◌>>=◌, ◌>>◌, pure}
use dsn.Types.Amount.{Amount, is_zero}
use dsn.State.Memory.{State, Action}
use dsn.Staking.Validator.{Validator}
use dsn.Staking.Registry.{stake_to_uint64}
use dsn.Staking.Active.{get_active_validators}
use dsn.Staking.Bonding.{amount_fraction, total_power, reward_shares, pay_operators}

-- The three shares that DistributeRewards returns.
pub record Split : Type 0 where
  pub validators : Amount
  pub burn : Amount
  pub treasury : Amount

unfoldable pub split_fees : Amount → Split
unfolding amount_fraction
split_fees fees = record {
  validators = amount_fraction fees 70 100;
  burn = amount_fraction fees 20 100;
  treasury = amount_fraction fees 10 100;
}

unfoldable pub distribute_rewards : Amount → Action Split
unfolding split_fees is_zero
distribute_rewards fees =
    let split = split_fees fees in
    if is_zero fees then pure (record { validators = 0; burn = 0; treasury = 0 }) else do
      vs ← get_active_validators
      if length vs == 0 || is_zero split.validators || total_power vs == 0 then pure split else (do
        pay_operators vs (reward_shares (stake_to_uint64 split.validators) (total_power vs) vs)
        pure split)
