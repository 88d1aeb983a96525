-- ===== src/Staking/Slashing.antt =====
-- staking/slashing.go: the parameters, the amount of a slash and its application.
pub mod Bounds
pub mod Effect
pub mod Offense
pub mod Keeps
use dsn.Prelude.{
  ℕ, ◌+◌, ◌*◌, ◌/◌, ◌++◌, none, some, length, take, drop, ltb, ◌==◌, if◌then◌else◌, wrap64,
}
use dsn.Error.{Error, Result, ok, err, cannot_slash_removed, slash_percent_too_high}
use dsn.Exec.{◌>>=◌, ◌>>◌, pure, lift, raise_if}
use dsn.Bytes.{Bytes, put_be, be_value}
use dsn.Types.Amount.{Amount, add, sub, is_zero}
use dsn.State.Key.{key_slash_params, key_current_epoch}
use dsn.State.Memory.{State, Action, get_bytes, set_bytes}
use dsn.State.Payload.{counter}
use dsn.Staking.Validator.{Validator, active, jailed, removed, transition_to}
use dsn.Staking.Registry.{
  get_validator, update_validator, total_bonded, set_total_bonded, stake_to_uint64,
}

pub record SlashParams : Type 0 where
  pub percent_double_prevote : ℕ
  pub percent_double_precommit : ℕ
  pub percent_invalid_commit : ℕ
  pub jail_epochs : ℕ

abbrev pub default_slash_params : SlashParams
default_slash_params = record {
  percent_double_prevote = 500;
  percent_double_precommit = 1000;
  percent_invalid_commit = 2000;
  jail_epochs = 10;
}

unfoldable pub set_slash_params : SlashParams → Action (Unit {0})
unfolding set_bytes
set_slash_params p = set_bytes key_slash_params (
    put_be 8 p.percent_double_prevote
    ++ (put_be 8 p.percent_double_precommit
        ++ (put_be 8 p.percent_invalid_commit ++ put_be 8 p.jail_epochs)))

-- The word at a position of the stored bytes.
abbrev word_at : ℕ → Bytes → ℕ
word_at i bs = be_value (take 8 (drop i bs))

unfoldable pub get_slash_params : State → SlashParams
unfolding get_bytes
get_slash_params s = elim (get_bytes key_slash_params s) [
  | none ↦ default_slash_params
  | some bs ↦ if ltb (length bs) 32 then default_slash_params else (record {
    percent_double_prevote = word_at 0 bs;
    percent_double_precommit = word_at 8 bs;
    percent_invalid_commit = word_at 16 bs;
    jail_epochs = word_at 24 bs;
  })
]

-- SlashAmount: amountToUint64 is the same function as stakeToUint64, and the product wraps.
unfoldable pub slash_amount : ℕ → Amount → Result Amount
slash_amount slash_percent stake =
    if ltb 10000 slash_percent
    then err slash_percent_too_high
    else ok (wrap64 (stake_to_uint64 stake * slash_percent) / 10000)

-- The jailing of an active validator.
unfoldable pub jail_if_active : ℕ → Validator → Action Validator
unfolding transition_to
jail_if_active jail_epochs v =
    if v.status == active
    then (do
      current_epoch ← counter key_current_epoch 0
      v' ← lift (transition_to jailed v)
      pure (record v' { jailed_until = wrap64 (current_epoch + jail_epochs); voting_power = 0 }))
    else pure v

-- What follows once the amount is known and not zero.
unfoldable pub take_slash : Validator → Amount → ℕ → Action (Unit {0})
take_slash v amount jail_epochs = do
  new_stake ← lift (sub v.bonded_stake amount)
  total ← total_bonded
  new_total ← lift (sub total amount)
  set_total_bonded new_total
  v' ← jail_if_active jail_epochs (record v { bonded_stake = new_stake })
  update_validator v'

unfoldable pub apply_slash : ℕ → ℕ → ℕ → Action (Unit {0})
unfolding is_zero
apply_slash consensus_id slash_percent jail_epochs = do
  v ← get_validator consensus_id
  raise_if (v.status == removed) cannot_slash_removed
  amount ← lift (slash_amount slash_percent v.bonded_stake)
  if is_zero amount then pure tt else take_slash v amount jail_epochs
