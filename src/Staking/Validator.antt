-- ===== src/Staking/Validator.antt =====
-- staking/validator.go: a validator, its life cycle and its binary form.
pub mod Laws
use dsn.Prelude.{
  ℕ, ◌+◌, ◌^◌, ◌<◌, [], ◌∷◌, Bool, false, List, ltb, ◌==◌, not, ◌||◌, if◌then◌else◌, wrap64,
}
use dsn.Error.{
  Error, Result, ok, err, insufficient_stake, commission_too_high, invalid_transition, fail_if,
  ◌>>=◌ as bind, ◌>>◌ as and_then,
}
use dsn.Bytes.{Bytes, Reader, read_uint, write_uint, write_padded, writes}
use dsn.Bytes.Do.{◌>>=◌, pure}
use dsn.Types.Amount.{Amount, IsAmount, marshal}
use dsn.State.Account.{read_balance}

-- ValidatorStatus, a uint8
abbrev pub pending : ℕ
pending = 0

abbrev pub active : ℕ
active = 1

abbrev pub jailed : ℕ
jailed = 2

abbrev pub unstaking : ℕ
unstaking = 3

abbrev pub removed : ℕ
removed = 4

unfoldable pub allowed_transitions : ℕ → List ℕ
allowed_transitions from =
    if from == pending
    then active ∷ []
    else if from == active
    then jailed ∷ unstaking ∷ []
    else if from == jailed
    then active ∷ []
    else if from == unstaking
    then removed ∷ []
    else []

unfoldable pub contains : ℕ → List ℕ → Bool
contains to [] = false
contains to (s ∷ rest) = s == to || contains to rest

unfoldable pub is_valid_transition : ℕ → ℕ → Bool
unfolding allowed_transitions contains
is_valid_transition from to = contains to (allowed_transitions from)

abbrev pub minimum_validator_stake : ℕ
minimum_validator_stake = 100_000

abbrev pub commission_rate_max_basis_points : ℕ
commission_rate_max_basis_points = 10000

pub record Validator : Type 0 where
  pub consensus_id : ℕ
  pub public_key : ℕ
  pub operator_address : ℕ
  pub reward_address : ℕ
  pub bonded_stake : Amount
  pub status : ℕ
  pub commission_rate : ℕ
  pub voting_power : ℕ
  pub jailed_until : ℕ
  pub activation_epoch : ℕ
  pub unstake_epoch : ℕ

unfoldable pub transition_to : ℕ → Validator → Result Validator
unfolding is_valid_transition
transition_to new_status v =
    if not (is_valid_transition v.status new_status)
    then err invalid_transition
    else ok (record v { status = new_status })

unfoldable pub encode_validator : Validator → Result Bytes
encode_validator v = writes (
    write_uint 20 v.consensus_id
    ∷ write_uint 32 v.public_key
    ∷ write_uint 20 v.operator_address
    ∷ write_uint 20 v.reward_address
    ∷ write_padded 16 (marshal v.bonded_stake)
    ∷ write_uint 1 v.status
    ∷ write_uint 2 v.commission_rate
    ∷ write_uint 8 v.voting_power
    ∷ write_uint 8 v.jailed_until
    ∷ write_uint 8 v.activation_epoch
    ∷ write_uint 8 v.unstake_epoch
    ∷ [])

unfoldable pub decode_validator : Reader Validator
decode_validator = do
  consensus_id ← read_uint 20
  public_key ← read_uint 32
  operator_address ← read_uint 20
  reward_address ← read_uint 20
  bonded_stake ← read_balance
  status ← read_uint 1
  commission_rate ← read_uint 2
  voting_power ← read_uint 8
  jailed_until ← read_uint 8
  activation_epoch ← read_uint 8
  unstake_epoch ← read_uint 8
  pure (record {
    consensus_id = consensus_id;
    public_key = public_key;
    operator_address = operator_address;
    reward_address = reward_address;
    bonded_stake = bonded_stake;
    status = status;
    commission_rate = commission_rate;
    voting_power = voting_power;
    jailed_until = jailed_until;
    activation_epoch = activation_epoch;
    unstake_epoch = unstake_epoch;
  })

-- The fields fit their Go types.
pub record IsSizedValidator (v : Validator) : Type 0 where
  pub consensus_id : v.consensus_id < 2 ^ 160
  pub public_key : v.public_key < 2 ^ 256
  pub operator_address : v.operator_address < 2 ^ 160
  pub reward_address : v.reward_address < 2 ^ 160
  pub bonded_stake : IsAmount v.bonded_stake
  pub status : v.status < 2 ^ 8
  pub commission_rate : v.commission_rate < 2 ^ 16
  pub voting_power : v.voting_power < 2 ^ 64
  pub jailed_until : v.jailed_until < 2 ^ 64
  pub activation_epoch : v.activation_epoch < 2 ^ 64
  pub unstake_epoch : v.unstake_epoch < 2 ^ 64

unfoldable pub validate_commission_rate : ℕ → Result (Unit {0})
validate_commission_rate rate =
    fail_if (ltb commission_rate_max_basis_points rate) commission_too_high

unfoldable pub new_validator : ℕ → ℕ → ℕ → Amount → ℕ → ℕ → Result Validator
unfolding validate_commission_rate
new_validator consensus_id pub_key operator_addr stake commission current_epoch =
    and_then (fail_if (ltb stake minimum_validator_stake) insufficient_stake) (
      and_then (validate_commission_rate commission) (
        ok (record {
          consensus_id = consensus_id;
          public_key = pub_key;
          operator_address = operator_addr;
          reward_address = operator_addr;
          bonded_stake = stake;
          status = pending;
          commission_rate = commission;
          voting_power = 0;
          jailed_until = 0;
          activation_epoch = wrap64 (current_epoch + 1);
          unstake_epoch = 0;
        })))
