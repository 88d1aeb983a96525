-- ===== src/Tests/Economy.antt =====
-- The issuance of an epoch and its distribution to the set of two validators.
use dsn.Prelude.{ℕ, ◌/◌, ◌+◌, ◌*◌, ◌≡◌, ◌≤◌, ◌<◌, refl, [], ◌∷◌, some, arith}
use dsn.Prelude.Map.{lookup}
use dsn.Error.{ok}
use dsn.Bytes.{put_be}
use dsn.State.Key.{
  snapshot_key, key_total_supply, key_treasury_supply, key_issued_supply, key_epoch_validator_pool,
}
use dsn.State.Memory.{State}
use dsn.State.Supply.{total, holds, IsUnique}
use dsn.Staking.Economics.{
  read_uint64, epochs_per_year, per_epoch_issuance, treasury_address, issue_epoch_tokens,
}
use dsn.Staking.Economics.Issued.{
  CanIssue, IsIssued, per_epoch_issuance_floor, issue_epoch_tokens-issues,
}
use dsn.Staking.Economics.EpochRewards.{distribute_validator_rewards}
use dsn.Staking.Economics.EpochRewards.Paid.{distribute_validator_rewards-pays}
use dsn.Consensus.Snapshot.Codec.{marshal_snapshot}
use dsn.Consensus.Snapshot.Stored.{get_snapshot}
use dsn.Consensus.Snapshot.Power.{full_power}
use dsn.Tests.Accounts.{account}
use dsn.Tests.Blocks.{set}
use dsn.Tests.Validators.{bytes_of}

per_epoch_issuance_floor_example :
    (i : ℕ) × (n : ℕ) × (per_epoch_issuance 1_000_000_000_000 1 100 ≡ ok i)
    × (epochs_per_year 1 100 ≡ ok n)
    × (n ≡ 31_536_000 / (1 * 100))
    × (n * i * 20 ≤ 1_000_000_000_000)
    × (1_000_000_000_000 < n * (i + 1) * 20)
per_epoch_issuance_floor_example =
    per_epoch_issuance_floor 1_000_000_000_000 1 100 (omega arith) (omega arith) (omega arith)

-- A supply of 10 ^ 12, of which the treasury has 40, and a pool of 900 for the epoch 2.
abbrev economy : State
economy = record {
  accounts = (0, account 0 40 0) ∷ (3, account 3 500 0) ∷ [];
  kvstore =
      (key_total_supply, put_be 8 1_000_000_000_000)
      ∷ (key_epoch_validator_pool 2, put_be 8 900)
      ∷ (snapshot_key 1, bytes_of (marshal_snapshot set))
      ∷ [];
  snapshots = [];
}

no_address_twice : IsUnique economy.accounts
unfolding lookup
no_address_twice = (refl, (refl, tt))

issued_now : per_epoch_issuance (read_uint64 key_total_supply economy) 1 100 ≡ ok 158_548
unfolding per_epoch_issuance read_uint64 lookup put_be dsn.Bytes.be_value
issued_now = refl

treasury_holds : holds treasury_address economy.accounts ≡ 40
unfolding lookup
treasury_holds = refl

reads_total : read_uint64 key_total_supply economy ≡ 1_000_000_000_000
unfolding read_uint64 lookup put_be dsn.Bytes.be_value
reads_total = refl

reads_treasury : read_uint64 key_treasury_supply economy ≡ 0
unfolding read_uint64 lookup
reads_treasury = refl

reads_issued : read_uint64 key_issued_supply economy ≡ 0
unfolding read_uint64 lookup
reads_issued = refl

can_issue : CanIssue 158_548 economy
can_issue = record {
  unique = no_address_twice;
  product_fits = omega arith;
  treasury_fits = omega (arith, treasury_holds);
  treasury_supply_fits = omega (arith, reads_treasury);
  total_fits = omega (arith, reads_total);
  issued_fits = omega (arith, reads_issued);
}

issue_epoch_tokens-issues_example :
    (t : State) × (issue_epoch_tokens 7 1 100 economy ≡ (ok 158_548, t))
    × IsIssued 7 158_548 economy t
issue_epoch_tokens-issues_example =
    issue_epoch_tokens-issues 7 1 100 158_548 economy issued_now (omega arith) can_issue

pool_of_two : read_uint64 (key_epoch_validator_pool 2) economy ≡ 900
unfolding read_uint64 lookup put_be dsn.Bytes.be_value
pool_of_two = refl

set_of_one : get_snapshot 1 economy ≡ ok (some set)
unfolding get_snapshot lookup dsn.Bytes.Do.◌>>=◌ dsn.Bytes.read_uint dsn.Bytes.read_full
    marshal_snapshot dsn.Bytes.writes dsn.Bytes.write_uint dsn.Staking.Validator.encode_validator
    dsn.Bytes.write_padded dsn.Types.Amount.marshal dsn.Bytes.be_bytes put_be
    dsn.Consensus.Snapshot.Codec.read_validators dsn.Staking.Validator.decode_validator
    dsn.State.Account.read_balance dsn.Types.Amount.unmarshal dsn.Bytes.Do.pure
set_of_one = refl

power_of_set : full_power set.validators ≡ 3
unfolding full_power
power_of_set = refl

balances : total economy.accounts ≡ 540
balances = refl

distribute_validator_rewards-pays_example :
    (t : State) × (distribute_validator_rewards 2 economy ≡ (ok tt, t))
    × (total t.accounts ≡ total economy.accounts + read_uint64 (key_epoch_validator_pool 2) economy)
    × IsUnique t.accounts
    × (t.kvstore ≡ economy.kvstore)
distribute_validator_rewards-pays_example =
    distribute_validator_rewards-pays 2 set economy (omega arith) (omega arith)
      (omega (arith, pool_of_two)) set_of_one (omega arith) (omega (arith, power_of_set))
      (ground (arith, power_of_set)) (rw pool_of_two (rw power_of_set (omega arith)))
      no_address_twice (omega (arith, pool_of_two, balances))
