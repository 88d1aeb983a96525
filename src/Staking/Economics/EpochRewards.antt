-- ===== src/Staking/Economics/EpochRewards.antt =====
-- staking/rewards.go: the validators' pool of an epoch is paid by the powers of a snapshot.
pub mod Paid
use dsn.Prelude.{
  ℕ, ◌+◌, ◌-◌, ◌^◌, List, [], ◌∷◌, Option, none, some, Bool, length, ◌==◌, ◌||◌, if◌then◌else◌,
  wrap64,
}
use dsn.Exec.{◌>>=◌, ◌>>◌, pure, gets}
use dsn.State.Key.{key_epoch_validator_pool}
use dsn.State.Memory.{State, Action}
use dsn.State.Payment.{pay}
use dsn.Staking.Validator.{Validator}
use dsn.Staking.Bonding.{reward_shares}
use dsn.Staking.Economics.{read_uint64}
use dsn.Consensus.Snapshot.{ValidatorSnapshot}
use dsn.Consensus.Snapshot.Stored.{get_snapshot}

-- The zero address stands for none.
unfoldable pub reward_address_of : Validator → ℕ
reward_address_of v = if v.reward_address == 0 then v.operator_address else v.reward_address

-- The accounts are paid one after the other; a share of 0 is passed over.
unfoldable pub pay_rewards : List Validator → List ℕ → Action (Unit {0})
unfolding reward_address_of pay
pay_rewards (v ∷ vs) (x ∷ xs) =
    let rest = pay_rewards vs xs in if x == 0 then rest else (do pay (reward_address_of v) x; rest)
pay_rewards vs xs = pure tt

-- The shares are computed as those of the fees are: floor shares, and the remainder to the first.
unfoldable pub pay_pool : ℕ → Option ValidatorSnapshot → Action (Unit {0})
unfolding reward_shares pay_rewards
pay_pool pool none = pure tt
pay_pool pool (some snap) =
    if length snap.validators == 0 || snap.total_power == 0
    then pure tt
    else pay_rewards snap.validators (reward_shares pool snap.total_power snap.validators)

unfoldable pub distribute_validator_rewards : ℕ → Action (Unit {0})
unfolding read_uint64 get_snapshot pay_pool
distribute_validator_rewards epoch = do
  pool ← gets (read_uint64 (key_epoch_validator_pool epoch))
  let snapshot_epoch = wrap64 (epoch + 2 ^ 64 - 1)
  if pool == 0 || snapshot_epoch == 0
      then pure tt
      else (do snap ← λ s. (get_snapshot snapshot_epoch s, s); pay_pool pool snap)
