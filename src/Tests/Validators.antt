-- ===== src/Tests/Validators.antt =====
-- The validators of a small state: registration, stake, slashes and status.
use dsn.Prelude.{ℕ, ◌+◌, ◌-◌, ◌≡◌, refl, [], ◌∷◌, some, true, ◌==◌, if◌then◌else◌, wrap64, arith}
use dsn.Prelude.Map.{lookup, nat_eq}
use dsn.Error.{Result, ok, err}
use dsn.Bytes.{
  Bytes, put_be, read_uint, read_full, write_uint, write_padded, writes, be_value, be_bytes,
}
use dsn.Types.Amount.{marshal, unmarshal}
use dsn.Types.Vote.{Crypto}
use dsn.State.Key.{key_total_bonded, validator_key, validator_by_seq_key, key_validator_count}
use dsn.State.Account.{Account, read_balance}
use dsn.Bytes.Do.{◌>>=◌, pure}
use dsn.State.Memory.{State, get_bytes}
use dsn.State.Supply.{total}
use dsn.State.Payload.{derive_consensus_id}
use dsn.Staking.Validator.{Validator, IsSizedValidator, encode_validator, decode_validator}
use dsn.Staking.Registry.{
  with_voting_power, get_validator, get_validator_by_pub_key, get_validator_by_operator,
  get_validator_id_by_seq, validator_count, total_bonded, register_validator,
}
use dsn.Staking.Registry.Lifecycle.{Outcome, jail, run-Outcome}
use dsn.Staking.Registry.Registered.{CanRegister, registered, register_validator-found}
use dsn.Staking.Bonding.{bond, slash}
use dsn.Staking.Bonding.Restake.{Holds, with_stake}
use dsn.Staking.Bonding.Effect.{taken, CanBond, charged, slash_takes, bond_moves}

abbrev pub validator : Validator
validator = record {
  consensus_id = 21;
  public_key = 12;
  operator_address = 3;
  reward_address = 3;
  bonded_stake = 100_000;
  status = 1;
  commission_rate = 500;
  voting_power = 100_000;
  jailed_until = 0;
  activation_epoch = 1;
  unstake_epoch = 0;
}

-- The bytes of an encoding that succeeds.
abbrev pub bytes_of : Result Bytes → Bytes
bytes_of (ok bs) = bs
bytes_of (err _) = []

abbrev account : Account
account = record {
  address = 3;
  balance = 500;
  nonce = 0;
  storage_root = 0;
  code_hash = 0;
  permissions = 0;
  public_key = 12;
}

abbrev pub staked : State
staked = record {
  accounts = (3, account) ∷ [];
  kvstore =
      (validator_key 21, bytes_of (encode_validator validator))
      ∷ (key_total_bonded, 1 ∷ 134 ∷ 160 ∷ [])
      ∷ (validator_by_seq_key 1, put_be 20 21)
      ∷ (key_validator_count, put_be 8 1)
      ∷ [];
  snapshots = [];
}

pub validator-IsSized : IsSizedValidator validator
validator-IsSized = record {
  consensus_id = omega arith;
  public_key = omega arith;
  operator_address = omega arith;
  reward_address = omega arith;
  bonded_stake = omega arith;
  status = omega arith;
  commission_rate = omega arith;
  voting_power = omega arith;
  jailed_until = omega arith;
  activation_epoch = omega arith;
  unstake_epoch = omega arith;
}

found : get_validator 21 staked ≡ (ok validator, staked)
unfolding get_validator lookup decode_validator ◌>>=◌ read_uint read_full encode_validator writes
    write_uint write_padded marshal be_bytes put_be read_balance unmarshal pure be_value
found = refl

summed : total_bonded staked ≡ (ok 100_000, staked)
unfolding total_bonded lookup unmarshal be_value
summed = refl

holds : Holds 21 validator 100_000 staked
holds = record {
  stored = record { found = found; keyed = refl; sized = validator-IsSized };
  total = summed;
  sized = omega arith;
}

run-Outcome_example : Outcome 21 validator staked (jail 12)
run-Outcome_example = run-Outcome 21 validator staked holds.stored (jail 12) (omega arith)

slash_takes_example :
    (t : State) × (slash 21 300_000 staked ≡ (ok (taken 300_000 validator), t))
    × Holds 21
        (with_voting_power (with_stake (100_000 - taken 300_000 validator) validator))
        (100_000 - taken 300_000 validator)
        t
    × (t.accounts ≡ staked.accounts)
slash_takes_example = slash_takes 21 300_000 validator 100_000 staked holds (omega arith)

can_bond : CanBond 3 400 account validator 100_000 staked
unfolding lookup
can_bond = record {
  found = refl;
  covered = omega arith;
  accepting = refl;
  stake_fits = omega arith;
  total_fits = omega arith;
}

bond_moves_example :
    (t : State) × (bond 3 21 400 staked ≡ (ok (100_000 + 400), t))
    × Holds 21 (with_voting_power (with_stake (100_000 + 400) validator)) (100_000 + 400) t
    × ((k : ℕ)
        → lookup k t.accounts
          ≡ (if 3 == k then some (charged 400 account) else lookup k staked.accounts))
    × (total t.accounts + (100_000 + 400) ≡ total staked.accounts + 100_000)
unfolding lookup
bond_moves_example = bond_moves 3 21 400 account validator 100_000 staked holds can_bond (refl, tt)

-- A digest whose first twenty bytes are the number 1.
abbrev crypto : Crypto
crypto = record { sha256 = λ _. 79228162514264337593543950336; verify = λ _ _ _. true }

abbrev empty_state : State
empty_state = record { accounts = []; kvstore = []; snapshots = [] }

no_count : validator_count empty_state ≡ (ok 0, empty_state)
unfolding validator_count lookup
no_count = refl

no_total : total_bonded empty_state ≡ (ok 0, empty_state)
unfolding total_bonded lookup
no_total = refl

can_register :
    CanRegister (derive_consensus_id crypto (put_be 32 12)) 12 3 100_000 500 0 empty_state
unfolding get_bytes lookup
can_register = record {
  new_id = refl;
  new_pub_key = refl;
  new_operator = refl;
  stake_le = omega arith;
  commission_le = omega arith;
  total_fits = omega arith;
  id_fits = unfold derive_consensus_id in omega arith;
  pub_key_fits = omega arith;
  operator_fits = omega arith;
}

register_validator-found_example :
    (t : State) × (register_validator crypto 12 3 100_000 500 0 empty_state
      ≡ (ok (derive_consensus_id crypto (put_be 32 12)), t))
    × (get_validator (derive_consensus_id crypto (put_be 32 12)) t
        ≡ (ok (registered (derive_consensus_id crypto (put_be 32 12)) 12 3 100_000 500 0), t))
    × (get_validator_by_pub_key 12 t
        ≡ (ok (registered (derive_consensus_id crypto (put_be 32 12)) 12 3 100_000 500 0), t))
    × (get_validator_by_operator 3 t
        ≡ (ok (registered (derive_consensus_id crypto (put_be 32 12)) 12 3 100_000 500 0), t))
    × (get_validator_id_by_seq (wrap64 (0 + 1)) t
        ≡ (ok (derive_consensus_id crypto (put_be 32 12)), t))
    × (validator_count t ≡ (ok (wrap64 (0 + 1)), t))
    × (total_bonded t ≡ (ok (0 + 100_000), t))
    × (t.accounts ≡ [])
register_validator-found_example =
    register_validator-found crypto 12 3 500 0 0 100_000 0 empty_state no_count no_total
      can_register
