-- ===== src/Staking/Bonding.antt =====
-- staking/staking.go: Bond, Slash, ReleaseStake and DistributeRewards.
pub mod Restake
pub mod Effect
pub mod Shares
use dsn.Prelude.{
  ℕ, zero, suc, ◌+◌, ◌-◌, ◌*◌, ◌/◌, ◌^◌, List, [], ◌∷◌, map, Bool, ltb, leb, ◌==◌, not, ◌&&◌, ◌||◌,
  if◌then◌else◌, wrap64, length,
}
use dsn.Error.{Error, Result, ok, err, insufficient_balance, cannot_bond, validator_not_unstaking}
use dsn.Exec.{◌>>=◌, ◌>>◌, pure, lift, raise_if}
use dsn.Types.Amount.{Amount, add, sub}
use dsn.State.Account.{new_account}
use dsn.State.Memory.{State, Action, Ref, get_account, load, debit, credit, set_account}
use dsn.State.Transitions.{get_or_new}
use dsn.Staking.Validator.{Validator, pending, active, unstaking}
use dsn.Staking.Registry.{
  get_validator, update_validator, total_bonded, set_total_bonded, stake_to_uint64,
  remove_validator,
}

unfoldable pub bond : ℕ → ℕ → Amount → Action Amount
bond from consensus_id amount = do
  acc ← get_account from
  a ← load acc
  raise_if (ltb a.balance amount) insufficient_balance
  v ← get_validator consensus_id
  raise_if (not (v.status == pending) && not (v.status == active)) cannot_bond
  acc' ← debit acc amount
  set_account from acc'
  new_stake ← lift (add v.bonded_stake amount)
  total ← total_bonded
  new_total ← lift (add total amount)
  set_total_bonded new_total
  update_validator (record v { bonded_stake = new_stake })
  pure new_stake

unfoldable pub slash : ℕ → Amount → Action Amount
slash consensus_id amount = do
  v ← get_validator consensus_id
  let slashed = if leb amount v.bonded_stake then amount else v.bonded_stake
  new_stake ← lift (sub v.bonded_stake slashed)
  total ← total_bonded
  new_total ← lift (sub total slashed)
  set_total_bonded new_total
  update_validator (record v { bonded_stake = new_stake })
  pure slashed

unfoldable pub release_stake : ℕ → Action (Unit {0})
release_stake consensus_id = do
  v ← get_validator consensus_id
  raise_if (not (v.status == unstaking)) validator_not_unstaking
  acc ← get_account v.operator_address
  acc' ← credit acc v.bonded_stake
  set_account v.operator_address acc'
  remove_validator consensus_id

-- amountFraction: the product is computed in uint64.
unfoldable pub amount_fraction : Amount → ℕ → ℕ → Amount
amount_fraction amount numerator denominator =
    wrap64 (stake_to_uint64 amount * numerator) / denominator

unfoldable pub total_power : List Validator → ℕ
total_power [] = 0
total_power (v ∷ vs) = wrap64 (v.voting_power + total_power vs)

-- The floor shares of a pool.
unfoldable pub portions : ℕ → ℕ → List Validator → List ℕ
portions pool power [] = []
portions pool power (v ∷ vs) = (wrap64 (pool * v.voting_power) / power) ∷ portions pool power vs

unfoldable pub sum64 : List ℕ → ℕ
sum64 [] = 0
sum64 (x ∷ xs) = wrap64 (x + sum64 xs)

-- The remainder goes to the first validator.
unfoldable pub add_remainder : ℕ → List ℕ → List ℕ
add_remainder remainder [] = []
add_remainder remainder (x ∷ xs) = wrap64 (x + remainder) ∷ xs

unfoldable pub reward_shares : ℕ → ℕ → List Validator → List ℕ
unfolding portions sum64 add_remainder
reward_shares pool power vs =
    let shares = portions pool power vs in
    add_remainder (wrap64 (pool + 2 ^ 64 - sum64 shares)) shares

-- The accounts are paid one after the other; a share of 0 is passed over.
unfoldable pub pay_operators : List Validator → List ℕ → Action (Unit {0})
pay_operators (v ∷ vs) (x ∷ xs) =
    let rest = pay_operators vs xs in
    if x == 0 then rest else do
      acc ← get_or_new v.operator_address
      acc' ← credit acc x
      set_account v.operator_address acc'
      rest
pay_operators vs xs = pure tt
