-- ===== src/Staking/Epoch.antt =====
-- staking/epoch.go: the settings, the epoch of a height and the transition between epochs.
pub mod Boundary
use dsn.Prelude.{
  ℕ, zero, suc, ◌+◌, ◌-◌, ◌/◌, ◌%◌, ◌≡◌, none, some, Bool, false, ltb, leb, ◌==◌, not, ◌&&◌,
  if◌then◌else◌, wrap64,
}
use dsn.Error.{Error, Result, ok, err, epoch_mismatch, zero_setting}
use dsn.Exec.{◌>>=◌, ◌>>◌, pure, lift, raise_if}
use dsn.Bytes.{put_be}
use dsn.State.Key.{Key, key_current_epoch, key_blocks_per_epoch, key_unstake_cooldown}
use dsn.State.Memory.{State, Action, set_bytes}
use dsn.State.Payload.{counter}
use dsn.Staking.Validator.{Validator, pending, jailed, unstaking}
use dsn.Staking.Registry.{
  get_validator, get_validator_id_by_seq, validator_count, activate_validator, unjail_validator,
}
use dsn.Staking.Bonding.{release_stake}

unfoldable pub blocks_per_epoch : Action ℕ
unfolding counter
blocks_per_epoch = counter key_blocks_per_epoch 100

unfoldable pub set_blocks_per_epoch : ℕ → Action (Unit {0})
unfolding set_bytes
set_blocks_per_epoch blocks = do
  raise_if (blocks == 0) zero_setting
  set_bytes key_blocks_per_epoch (put_be 8 blocks)

unfoldable pub unstake_cooldown : Action ℕ
unfolding counter
unstake_cooldown = counter key_unstake_cooldown 14

unfoldable pub set_unstake_cooldown : ℕ → Action (Unit {0})
unfolding set_bytes
set_unstake_cooldown cooldown = do
  raise_if (cooldown == 0) zero_setting
  set_bytes key_unstake_cooldown (put_be 8 cooldown)

unfoldable pub current_epoch : Action ℕ
unfolding counter
current_epoch = counter key_current_epoch 0

unfoldable pub set_current_epoch : ℕ → Action (Unit {0})
unfolding set_bytes
set_current_epoch epoch = set_bytes key_current_epoch (put_be 8 epoch)

-- EpochAtHeight and IsEpochBoundary, for the number of blocks that is in force.
unfoldable pub epoch_of : ℕ → ℕ → ℕ
epoch_of bpe height = if height == 0 then 0 else (height - 1) / bpe + 1

unfoldable pub is_boundary : ℕ → ℕ → Bool
is_boundary bpe height = if height == 0 then false else height % bpe == 0

unfoldable pub epoch_at_height : ℕ → Action ℕ
unfolding epoch_of
epoch_at_height height =
    if height == 0 then pure 0 else (do bpe ← blocks_per_epoch; pure (epoch_of bpe height))

unfoldable pub is_epoch_boundary : ℕ → Action Bool
unfolding is_boundary
is_epoch_boundary height =
    if height == 0 then pure false else (do bpe ← blocks_per_epoch; pure (is_boundary bpe height))

-- `continue` where the sequence number or its validator is missing.
unfoldable pub stored_at : ℕ → State → Result (ℕ × Validator)
unfolding get_validator get_validator_id_by_seq
stored_at seq s = elim (get_validator_id_by_seq seq s).0 [
  | err e ↦ err e
  | ok id ↦ elim (get_validator id s).0 [ err e ↦ err e | ok v ↦ ok (id, v) ]
]

-- One round of each loop.
unfoldable pub activate_at : ℕ → ℕ → Action (Unit {0})
unfolding stored_at
activate_at next seq s = elim (stored_at seq s) [
  | err _ ↦ (ok tt, s)
  | ok (id, v) ↦
      if v.status == pending && v.activation_epoch == next
      then activate_validator id next s
      else (ok tt, s)
]

unfoldable pub release_at : ℕ → ℕ → Action (Unit {0})
unfolding stored_at
release_at next seq s = elim (stored_at seq s) [
  | err _ ↦ (ok tt, s)
  | ok (id, v) ↦
      if v.status == unstaking && leb v.unstake_epoch next then release_stake id s else (ok tt, s)
]

unfoldable pub unjail_at : ℕ → ℕ → Action (Unit {0})
unfolding stored_at
unjail_at next seq s = elim (stored_at seq s) [
  | err _ ↦ (ok tt, s)
  | ok (id, v) ↦
      if v.status == jailed && leb v.jailed_until next then unjail_validator id s else (ok tt, s)
]

-- `for seq := 1; seq <= count; seq++`, with the rounds that are left and the next number.
unfoldable pub for_each_seq : (ℕ → Action (Unit {0})) → ℕ → ℕ → Action (Unit {0})
for_each_seq body zero seq = pure tt
for_each_seq body (suc rounds) seq = do body seq; for_each_seq body rounds (seq + 1)

unfoldable pub process_epoch_transition : ℕ → Action (Unit {0})
process_epoch_transition height = do
  current ← current_epoch
  let next = wrap64 (current + 1)
  expected ← epoch_at_height height
  raise_if (not (expected == next)) epoch_mismatch
  count ← validator_count
  for_each_seq (activate_at next) count 1
  for_each_seq (release_at next) count 1
  for_each_seq (unjail_at next) count 1
  set_current_epoch next
