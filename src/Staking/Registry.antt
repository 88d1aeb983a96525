-- ===== src/Staking/Registry.antt =====
-- staking/registry.go: the validators in the key-value store, with their indexes, their count and
-- the bonded total, and the operations on a validator's status.
pub mod Power
pub mod Stored
pub mod Lifecycle
pub mod Registered
use dsn.Prelude.{
  ℕ, zero, suc, ◌+◌, ◌-◌, ◌*◌, ◌%◌, ◌^◌, List, [], ◌∷◌, ◌++◌, Bool, true, false, Option, none, some,
  length, drop, take, ltb, ◌==◌, not, ◌&&◌, ◌||◌, if◌then◌else◌, wrap64, foldl,
}
use dsn.Error.{
  Error, Result, ok, err, validator_exists, validator_not_found, validator_not_pending,
  validator_not_active, validator_not_jailed, validator_not_unstaking,
}
use dsn.Exec.{◌>>=◌, ◌>>◌, pure, raise, lift, gets, raise_if}
use dsn.Bytes.{Bytes, put_be, be_value}
use dsn.Types.Amount.{Amount, add, sub, marshal, unmarshal}
use dsn.Types.Vote.{Crypto}
use dsn.State.Key.{
  Key, validator_key, validator_by_seq_key, validator_pubkey_key, validator_operator_key,
  key_validator_count, key_total_bonded,
}
use dsn.State.Memory.{State, Action, get_bytes, set_bytes, delete_bytes}
use dsn.State.Payload.{uint64_of, counter, derive_consensus_id, is_some}
use dsn.Staking.Validator.{
  Validator, pending, active, jailed, unstaking, removed, transition_to, encode_validator,
  decode_validator, new_validator,
}

unfoldable pub validator_count : Action ℕ
unfolding counter
validator_count = counter key_validator_count 0

unfoldable pub set_validator_count : ℕ → Action (Unit {0})
unfolding set_bytes
set_validator_count count = set_bytes key_validator_count (put_be 8 count)

unfoldable pub total_bonded : Action Amount
unfolding get_bytes
total_bonded s = elim (get_bytes key_total_bonded s) [
  | none ↦ (ok 0, s)
  | some bs ↦ (unmarshal bs, s)
]

unfoldable pub set_total_bonded : Amount → Action (Unit {0})
unfolding set_bytes
set_total_bonded amt = set_bytes key_total_bonded (marshal amt)

-- The last eight bytes of the amount's bytes, shifted into a uint64 one after the other. A byte is
-- below 256, so the bitwise or is a sum.
unfoldable pub stake_to_uint64 : Amount → ℕ
stake_to_uint64 stake =
    let bs = marshal stake in foldl (λ val b. wrap64 (val * 256) + b) 0 (drop (length bs - 8) bs)

unfoldable pub get_validator : ℕ → Action Validator
unfolding get_bytes
get_validator consensus_id s = elim (get_bytes (validator_key consensus_id) s) [
  | none ↦ (err validator_not_found, s)
  | some bs ↦ elim (decode_validator bs) [ ok (v, _) ↦ (ok v, s) | err e ↦ (err e, s) ]
]

-- copy(id[:], bs) into twenty bytes that are zero.
unfoldable pub copy_id : Bytes → ℕ
copy_id bs = be_value (take 20 bs) * 256 ^ (20 - length bs)

unfoldable pub indexed_validator : Key → Action Validator
unfolding get_bytes copy_id
indexed_validator key s = elim (get_bytes key s) [
  | none ↦ (err validator_not_found, s)
  | some bs ↦ get_validator (copy_id bs) s
]

unfoldable pub get_validator_by_pub_key : ℕ → Action Validator
unfolding indexed_validator
get_validator_by_pub_key pub_key = indexed_validator (validator_pubkey_key pub_key)

unfoldable pub get_validator_by_operator : ℕ → Action Validator
unfolding indexed_validator
get_validator_by_operator addr = indexed_validator (validator_operator_key addr)

-- The voting power is recomputed from the status.
unfoldable pub with_voting_power : Validator → Validator
with_voting_power v = record v {
  voting_power = if v.status == active then stake_to_uint64 v.bonded_stake else 0;
}

unfoldable pub update_validator : Validator → Action (Unit {0})
unfolding set_bytes
update_validator v = do
  bs ← lift (encode_validator (with_voting_power v))
  set_bytes (validator_key v.consensus_id) bs

unfoldable pub register_validator : Crypto → ℕ → ℕ → Amount → ℕ → ℕ → Action ℕ
register_validator c pub_key operator_addr stake commission current_epoch =
    let id = derive_consensus_id c (put_be 32 pub_key) in
    do
      known ← gets (get_bytes (validator_key id))
      raise_if (is_some known) validator_exists
      keyed ← gets (get_bytes (validator_pubkey_key pub_key))
      raise_if (is_some keyed) validator_exists
      operated ← gets (get_bytes (validator_operator_key operator_addr))
      raise_if (is_some operated) validator_exists
      count ← validator_count
      v ← lift (new_validator id pub_key operator_addr stake commission current_epoch)
      bs ← lift (encode_validator v)
      set_bytes (validator_key id) bs
      set_bytes (validator_pubkey_key pub_key) (put_be 20 id)
      set_bytes (validator_operator_key operator_addr) (put_be 20 id)
      set_bytes (validator_by_seq_key (wrap64 (count + 1))) (put_be 20 id)
      set_validator_count (wrap64 (count + 1))
      total ← total_bonded
      new_total ← lift (add total stake)
      set_total_bonded new_total
      pure id

unfoldable pub get_validator_id_by_seq : ℕ → Action ℕ
unfolding get_bytes copy_id
get_validator_id_by_seq seq s = elim (get_bytes (validator_by_seq_key seq) s) [
  | none ↦ (err validator_not_found, s)
  | some bs ↦ (ok (copy_id bs), s)
]

unfoldable pub activate_validator : ℕ → ℕ → Action (Unit {0})
activate_validator consensus_id epoch = do
  v ← get_validator consensus_id
  raise_if (not (v.status == pending)) validator_not_pending
  v' ← lift (transition_to active v)
  update_validator
      (record v' { activation_epoch = epoch; voting_power = stake_to_uint64 v'.bonded_stake })

unfoldable pub jail_validator : ℕ → ℕ → Action (Unit {0})
jail_validator consensus_id until_epoch = do
  v ← get_validator consensus_id
  raise_if (not (v.status == active)) validator_not_active
  v' ← lift (transition_to jailed v)
  update_validator (record v' { jailed_until = until_epoch; voting_power = 0 })

unfoldable pub unjail_validator : ℕ → Action (Unit {0})
unjail_validator consensus_id = do
  v ← get_validator consensus_id
  raise_if (not (v.status == jailed)) validator_not_jailed
  v' ← lift (transition_to active v)
  update_validator (record v' { jailed_until = 0; voting_power = stake_to_uint64 v'.bonded_stake })

unfoldable pub start_unstake : ℕ → ℕ → Action (Unit {0})
start_unstake consensus_id unstake_epoch = do
  v ← get_validator consensus_id
  v' ← lift (transition_to unstaking v)
  update_validator (record v' { unstake_epoch = unstake_epoch; voting_power = 0 })

unfoldable pub remove_validator : ℕ → Action (Unit {0})
remove_validator consensus_id = do
  v ← get_validator consensus_id
  raise_if (not (v.status == unstaking)) validator_not_unstaking
  v' ← lift (transition_to removed v)
  total ← total_bonded
  new_total ← lift (sub total v'.bonded_stake)
  set_total_bonded new_total
  delete_bytes (validator_pubkey_key v'.public_key)
  delete_bytes (validator_operator_key v'.operator_address)
  update_validator (record v' { voting_power = 0 })
