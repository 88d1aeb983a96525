-- ===== src/Staking/Slashing/Effect.antt =====
-- What a slash for misbehaviour does to a stored validator.
use dsn.Prelude.{ℕ, ◌+◌, ◌-◌, ◌*◌, ◌^◌, ◌<◌, ◌≤◌, ◌≡◌, false, ◌==◌, if◌then◌else◌}
use dsn.Error.{ok}
use dsn.Types.Amount.{Amount}
use dsn.State.Key.{key_eq, key_current_epoch}
use dsn.State.Memory.{State}
use dsn.State.Payload.{counter}
use dsn.Staking.Validator.{Validator, active, jailed, removed}
use dsn.Staking.Bonding.Restake.{with_stake}

-- The validator that a slash writes: an active one is jailed.
abbrev pub slashed : Amount → ℕ → Validator → Validator
slashed amount until_epoch v =
    if v.status == active
    then (record v {
      bonded_stake = v.bonded_stake - amount;
      status = jailed;
      jailed_until = until_epoch;
      voting_power = 0;
    })
    else with_stake (v.bonded_stake - amount) v

-- What the slashing of a validator supposes of the state and of the parameters.
pub record CanSlash (percent jail_epochs epoch : ℕ) (v : Validator) (bonded : Amount) (s : State)
    : Type 0 where
  pub not_removed : (v.status == removed) ≡ false
  pub percent_le : percent ≤ 10000
  pub stake_fits : v.bonded_stake < 2 ^ 64
  pub product_fits : v.bonded_stake * percent < 2 ^ 64
  pub covered : v.bonded_stake ≤ bonded
  pub epoch_eq : counter key_current_epoch 0 s ≡ (ok epoch, s)
  pub until_fits : epoch + jail_epochs < 2 ^ 64
