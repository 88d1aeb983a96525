-- ===== src/Tests/Chain.antt =====
-- The start, the building and the validation of a block on a small state.
use mathlib.Core.Path.{subst}
use dsn.Prelude.{
  ℕ, ◌+◌, ◌≡◌, ◌∙◌, sym, ap, if◌then◌else◌, wrap64, refl, [], ◌∷◌, Option, some, none, true, false,
  foldl, arith,
}
use dsn.Error.{Result, ok}
use dsn.Bytes.{Bytes, put_be}
use dsn.Types.Vote.{Vote}
use dsn.Types.Commit.{CommitProof}
use dsn.Types.Block.{BlockHeader, Block, header_hash}
use dsn.State.Key.{key_current_epoch, evidence_key}
use dsn.State.Memory.{State, get_bytes}
use dsn.State.Supply.{total}
use dsn.Staking.Active.{get_active_validators}
use dsn.Staking.Epoch.{current_epoch, is_epoch_boundary}
use dsn.Consensus.Snapshot.{ValidatorSnapshot}
use dsn.Consensus.Snapshot.Codec.{IsSizedSnapshot}
use dsn.Consensus.Snapshot.Stored.{
  sum_power, compute_validator_set_hash, create_snapshot, get_snapshot, create_snapshot-get,
}
use dsn.Consensus.Proposer.{weighted_proposer_at_height}
use dsn.Consensus.System.{settle_epoch, snapshot_for, open_epoch, begin_block}
use dsn.Consensus.System.Stable.{KeepsEpoch, begin_block-stable}
use dsn.Consensus.Certificate.{validate_commit_proof, check_proof}
use dsn.Consensus.Execution.{Env, start_block}
use dsn.Consensus.Building.{BlockRequest, assemble, build_started, sign_block, build_block}
use dsn.Consensus.Validation.{validate_block}
use dsn.Consensus.Validation.Replayed.{build_block-validate}
use dsn.Tests.Accounts.{account, payment}
use dsn.Tests.Validators.{validator, validator-IsSized, staked}
use dsn.Tests.Certificates.{summing}

-- The registry of one active validator, in the epoch 1.
abbrev epoch_one : State
epoch_one = record staked { kvstore = (key_current_epoch, put_be 8 1) ∷ staked.kvstore }

abbrev set_of_one : ValidatorSnapshot
set_of_one = record {
  epoch = 1;
  validators = validator ∷ [];
  total_power = 100_000;
  set_hash = 876;
}

abbrev opened : State
opened = (create_snapshot summing 1 epoch_one).1

creates : create_snapshot summing 1 epoch_one ≡ (ok set_of_one, opened)
unfolding create_snapshot get_active_validators dsn.Staking.Registry.validator_count
    dsn.Prelude.Map.lookup put_be dsn.Prelude.Sort.sort dsn.Bytes.be_value
    dsn.Staking.Registry.get_validator_id_by_seq dsn.Staking.Registry.get_validator
    dsn.Staking.Validator.decode_validator dsn.Bytes.Do.◌>>=◌ dsn.Bytes.read_uint
    dsn.Bytes.read_full dsn.Bytes.write_uint dsn.Bytes.write_padded dsn.Types.Amount.marshal
    dsn.Bytes.be_bytes dsn.Bytes.Do.pure dsn.Bytes.be_bytes_fuel dsn.Bytes.writes dsn.Bytes.zeros
    dsn.Consensus.Snapshot.Codec.marshal_snapshot compute_validator_set_hash
    dsn.Consensus.Snapshot.Stored.freeze dsn.Consensus.Snapshot.Stored.latest_snapshot_epoch
    dsn.Consensus.Snapshot.Stored.set_latest_snapshot_epoch
    dsn.Consensus.Snapshot.Stored.store_snapshot sum_power dsn.Prelude.Map.insert
    dsn.Prelude.Map.remove dsn.Prelude.Sort.place dsn.Staking.Active.collect
    dsn.Staking.Active.collect_at dsn.Staking.Registry.copy_id
    dsn.Staking.Validator.encode_validator dsn.State.Account.read_balance dsn.State.Memory.get_bytes
    dsn.State.Memory.set_bytes dsn.State.Payload.counter dsn.State.Payload.uint64_of
    dsn.Types.Amount.unmarshal
creates = refl

set_of_one-IsSized : IsSizedSnapshot set_of_one
set_of_one-IsSized = record {
  epoch = omega arith;
  validators = (validator-IsSized, tt);
  count = omega arith;
  total_power = omega arith;
  set_hash = omega arith;
}

create_snapshot-get_example :
    (get_snapshot 1 opened ≡ ok (some set_of_one))
    × (set_of_one.epoch ≡ 1)
    × (set_of_one.total_power ≡ sum_power 0 (validator ∷ []))
    × ((get_active_validators epoch_one).0 ≡ ok (validator ∷ []))
create_snapshot-get_example =
    create_snapshot-get summing 1 epoch_one opened set_of_one set_of_one-IsSized creates

settles : settle_epoch 5 epoch_one ≡ (ok tt, epoch_one)
unfolding settle_epoch is_epoch_boundary dsn.Staking.Epoch.blocks_per_epoch dsn.Prelude.Map.lookup
settles = refl

in_epoch_one : current_epoch epoch_one ≡ (ok 1, epoch_one)
unfolding current_epoch dsn.Prelude.Map.lookup put_be dsn.Bytes.be_value
in_epoch_one = refl

none_yet : get_snapshot 1 epoch_one ≡ ok none
unfolding get_snapshot dsn.Prelude.Map.lookup
none_yet = refl

freezes : snapshot_for summing 1 epoch_one ≡ (ok set_of_one, opened)
unfolding snapshot_for
freezes = ground (arith, none_yet, creates)

opens : open_epoch summing epoch_one ≡ (ok (1, 876), opened)
unfolding open_epoch
opens = ground (arith, in_epoch_one, freezes)

-- The block 100 ends the epoch 0 of the registry.
ends : settle_epoch 100 staked ≡ (ok tt, epoch_one)
unfolding settle_epoch is_epoch_boundary dsn.Staking.Epoch.blocks_per_epoch dsn.Prelude.Map.lookup
    dsn.Consensus.System.end_epoch dsn.Staking.Epoch.epoch_at_height
    dsn.Staking.Economics.issue_epoch_tokens
    dsn.Staking.Economics.EpochRewards.distribute_validator_rewards
    dsn.Staking.Epoch.process_epoch_transition current_epoch dsn.Staking.Registry.validator_count
    put_be dsn.Staking.Epoch.for_each_seq dsn.Staking.Epoch.activate_at
    dsn.Staking.Validator.decode_validator dsn.Bytes.Do.◌>>=◌ dsn.Bytes.read_uint
    dsn.Bytes.read_full dsn.Staking.Validator.encode_validator dsn.Bytes.writes dsn.Bytes.write_uint
    dsn.Bytes.write_padded dsn.Types.Amount.marshal dsn.Bytes.be_bytes
    dsn.State.Account.read_balance dsn.Types.Amount.unmarshal dsn.Bytes.Do.pure
    dsn.Staking.Epoch.release_at dsn.Staking.Epoch.unjail_at dsn.Staking.Epoch.set_current_epoch
    dsn.Prelude.Map.insert dsn.Prelude.Map.remove
ends = refl

in_epoch_zero : current_epoch staked ≡ (ok 0, staked)
unfolding current_epoch dsn.Prelude.Map.lookup
in_epoch_zero = refl

at_end : is_epoch_boundary 100 staked ≡ (ok true, staked)
unfolding is_epoch_boundary dsn.Staking.Epoch.blocks_per_epoch dsn.Prelude.Map.lookup
at_end = refl

begins : begin_block summing 100 staked ≡ (ok (1, 876), opened)
unfolding begin_block open_epoch
begins = ground (arith, ends, in_epoch_one, freezes)

frozen-IsSized :
    (s' : State) (snap : ValidatorSnapshot)
    → settle_epoch 100 staked ≡ (ok tt, s')
    → snapshot_for summing 1 s' ≡ (ok snap, opened)
    → IsSizedSnapshot snap
frozen-IsSized s' snap hs hf =
    let same : epoch_one ≡ s' = ap (λ (p : Result (Unit {0}) × State). p.1) (sym ends ∙ hs) in
    let made : snapshot_for summing 1 s' ≡ (ok set_of_one, opened) =
      subst (λ x. snapshot_for summing 1 x ≡ (ok set_of_one, opened)) same freezes in
    subst IsSizedSnapshot (ground (arith, made, hf)) set_of_one-IsSized

-- A state that a later block finds: an account has come in, and an entry of evidence.
abbrev found_later : State
found_later = record opened {
  accounts = (9, account 9 50 0) ∷ opened.accounts;
  kvstore = (evidence_key 5, put_be 8 101) ∷ opened.kvstore;
}

later-KeepsEpoch : KeepsEpoch 1 opened found_later
unfolding get_bytes dsn.Prelude.Map.lookup
later-KeepsEpoch = record { current = refl; snapshot = refl }

not_at_end : is_epoch_boundary 150 found_later ≡ (ok false, found_later)
unfolding is_epoch_boundary dsn.Staking.Epoch.blocks_per_epoch dsn.State.Payload.counter get_bytes
    dsn.Prelude.Map.lookup create_snapshot get_active_validators
    dsn.Staking.Registry.validator_count put_be dsn.Prelude.Sort.sort dsn.Bytes.be_value
    dsn.Staking.Registry.get_validator_id_by_seq dsn.Staking.Registry.get_validator
    dsn.Staking.Validator.decode_validator dsn.Bytes.Do.◌>>=◌ dsn.Bytes.read_uint
    dsn.Bytes.read_full dsn.Bytes.write_uint dsn.Bytes.write_padded dsn.Types.Amount.marshal
    dsn.Bytes.be_bytes dsn.Bytes.Do.pure dsn.Bytes.be_bytes_fuel dsn.Bytes.writes dsn.Bytes.zeros
    dsn.Consensus.Snapshot.Codec.marshal_snapshot compute_validator_set_hash
    dsn.Consensus.Snapshot.Stored.freeze dsn.Consensus.Snapshot.Stored.latest_snapshot_epoch
    dsn.Consensus.Snapshot.Stored.set_latest_snapshot_epoch
    dsn.Consensus.Snapshot.Stored.store_snapshot sum_power dsn.Prelude.Map.insert
    dsn.Prelude.Map.remove dsn.Prelude.Sort.place dsn.Staking.Active.collect
    dsn.Staking.Active.collect_at dsn.Staking.Registry.copy_id
    dsn.Staking.Validator.encode_validator dsn.State.Account.read_balance dsn.State.Memory.set_bytes
    dsn.State.Payload.uint64_of dsn.Types.Amount.unmarshal dsn.Staking.Epoch.is_boundary
not_at_end = refl

begin_block-stable_example :
    (1 ≡ (if true then wrap64 (0 + 1) else 0))
    × ((snap : ValidatorSnapshot) × (get_snapshot 1 opened ≡ ok (some snap))
        × (snap.set_hash ≡ 876))
    × (begin_block summing 150 found_later ≡ (ok (1, 876), found_later))
begin_block-stable_example =
    begin_block-stable summing 100 150 1 876 0 true staked opened found_later (omega arith) begins
      in_epoch_zero at_end frozen-IsSized (omega arith) not_at_end later-KeepsEpoch

-- The block at the height 5, by the only validator, with one payment. The Merkle root is stood for
-- by the sum of the balances.
abbrev env : Env
env = record { crypto = summing; now = 1000; root = λ s. ok (total s.accounts); vm = none }

abbrev request : BlockRequest
request = record {
  height = 5;
  previous_hash = 33;
  proposer = 21;
  pending = payment 1 ∷ [];
  max_txs = 10;
  evidence = [];
  started_at = 1000;
  finished_at = 1001;
}

abbrev sign : ℕ → Result Bytes
sign _ = ok (7 ∷ [])

abbrev block : Block
block =
    record (assemble env request (1, 876) (record { fees = 10; receipts = 11 ∷ []; events = [] })
      497 (validator ∷ [])) { signature = 7 ∷ [] }

-- The payment of 100 with a fee of 10, of which the validator's operator gets 7 back.
abbrev ended : State
ended = record opened {
  accounts = (3, account 3 397 1) ∷ (4, record (account 4 100 0) { public_key = 0 }) ∷ [];
}

starts : start_block env [] 5 epoch_one ≡ (ok (1, 876), opened)
unfolding start_block begin_block
starts = ground (arith, settles, opens)

builds_started :
    build_started env request (1, 876) opened ≡ (ok (record block { signature = [] }), ended)
unfolding build_started dsn.Consensus.Execution.run_txs dsn.Prelude.Sort.sort
    dsn.State.Applier.check_transaction dsn.Types.Transaction.validate put_be
    dsn.Types.Timestamp.validate_timestamp dsn.Prelude.Map.lookup create_snapshot
    get_active_validators dsn.Staking.Registry.validator_count dsn.Bytes.be_value
    dsn.Staking.Registry.get_validator_id_by_seq dsn.Staking.Registry.get_validator
    dsn.Staking.Validator.decode_validator dsn.Bytes.Do.◌>>=◌ dsn.Bytes.read_uint
    dsn.Bytes.read_full dsn.Bytes.write_uint dsn.Bytes.write_padded dsn.Types.Amount.marshal
    dsn.Bytes.be_bytes dsn.State.Account.read_balance dsn.Types.Amount.unmarshal dsn.Bytes.Do.pure
    dsn.Consensus.Snapshot.Stored.store_snapshot
    dsn.Consensus.Snapshot.Stored.set_latest_snapshot_epoch dsn.Prelude.Map.insert
    dsn.Prelude.Map.remove dsn.State.Payload.apply_payload dsn.State.Payload.apply_transfer
    dsn.Types.Amount.add dsn.State.Transitions.get_or_new dsn.State.Memory.credit
    dsn.State.Memory.debit dsn.State.Account.add_balance dsn.State.Account.sub_balance
    dsn.Types.Amount.sub dsn.State.Applier.settle dsn.State.Memory.bump_nonce dsn.State.Memory.load
    dsn.State.Memory.update dsn.State.Account.increment_nonce dsn.State.Memory.set_account
    dsn.State.Memory.get_account dsn.Consensus.Building.build_executed
    dsn.Consensus.System.finalize_block dsn.Types.Block.new_fee_summary
    dsn.Staking.Rewards.distribute_rewards dsn.Staking.Registry.stake_to_uint64
    dsn.Staking.Bonding.total_power dsn.Staking.Bonding.pay_operators
    dsn.Staking.Bonding.reward_shares assemble
builds_started = refl

builds : build_block env sign request epoch_one ≡ (ok block, ended)
unfolding build_block sign_block
builds = ground (arith, starts, builds_started)

-- The header before, of which only the height counts.
abbrev parent : BlockHeader
parent = record block.header { height = 4 }

-- A precommit of the only validator.
abbrev precommit_of : Vote
precommit_of = record {
  vote_type = 2;
  height = 5;
  round = 0;
  block_hash = header_hash summing block.header;
  validator = 21;
  signature = 4 ∷ [];
}

abbrev proof : CommitProof
proof = record {
  height = 5;
  block_hash = header_hash summing block.header;
  precommits = precommit_of ∷ [];
  total_power = 100_000;
  signed_power = 100_000;
  set_hash = 876;
}

still_epoch_one : current_epoch opened ≡ (ok 1, opened)
unfolding current_epoch dsn.Prelude.Map.lookup create_snapshot get_active_validators
    dsn.Staking.Registry.validator_count put_be dsn.Prelude.Sort.sort dsn.Bytes.be_value
    dsn.Staking.Registry.get_validator_id_by_seq dsn.Staking.Registry.get_validator
    dsn.Staking.Validator.decode_validator dsn.Bytes.Do.◌>>=◌ dsn.Bytes.read_uint
    dsn.Bytes.read_full dsn.Bytes.write_uint dsn.Bytes.write_padded dsn.Types.Amount.marshal
    dsn.Bytes.Do.pure dsn.Bytes.be_bytes dsn.Bytes.be_bytes_fuel dsn.Bytes.writes dsn.Bytes.zeros
    dsn.Consensus.Snapshot.Codec.marshal_snapshot compute_validator_set_hash
    dsn.Consensus.Snapshot.Stored.freeze dsn.Consensus.Snapshot.Stored.latest_snapshot_epoch
    dsn.Consensus.Snapshot.Stored.set_latest_snapshot_epoch
    dsn.Consensus.Snapshot.Stored.store_snapshot sum_power dsn.Prelude.Map.insert
    dsn.Prelude.Map.remove dsn.Prelude.Sort.place dsn.Staking.Active.collect
    dsn.Staking.Active.collect_at dsn.Staking.Registry.copy_id
    dsn.Staking.Validator.encode_validator dsn.State.Account.read_balance dsn.State.Memory.get_bytes
    dsn.State.Memory.set_bytes dsn.State.Payload.counter dsn.State.Payload.uint64_of
    dsn.Types.Amount.unmarshal
still_epoch_one = refl

kept_set : get_snapshot 1 opened ≡ ok (some set_of_one)
unfolding get_snapshot dsn.Prelude.Map.lookup create_snapshot get_active_validators
    dsn.Staking.Registry.validator_count put_be dsn.Prelude.Sort.sort
    dsn.Staking.Registry.get_validator_id_by_seq dsn.Staking.Registry.get_validator
    dsn.Staking.Validator.decode_validator dsn.Bytes.Do.◌>>=◌ dsn.Bytes.read_uint
    dsn.Bytes.read_full dsn.Bytes.write_uint dsn.Bytes.write_padded dsn.Types.Amount.marshal
    dsn.Bytes.be_bytes dsn.Bytes.Do.fail dsn.Bytes.Do.pure dsn.Bytes.be_bytes_fuel
    dsn.Bytes.be_value dsn.Bytes.writes dsn.Bytes.zeros dsn.Consensus.Snapshot.Codec.decode_snapshot
    dsn.Consensus.Snapshot.Codec.decode_validators dsn.Consensus.Snapshot.Codec.marshal_snapshot
    dsn.Consensus.Snapshot.Codec.read_some dsn.Consensus.Snapshot.Codec.read_validators
    dsn.Consensus.Snapshot.Codec.unmarshal_snapshot compute_validator_set_hash
    dsn.Consensus.Snapshot.Stored.freeze dsn.Consensus.Snapshot.Stored.latest_snapshot_epoch
    dsn.Consensus.Snapshot.Stored.set_latest_snapshot_epoch
    dsn.Consensus.Snapshot.Stored.store_snapshot sum_power dsn.Prelude.Map.insert
    dsn.Prelude.Map.remove dsn.Prelude.Sort.place dsn.Staking.Active.collect
    dsn.Staking.Active.collect_at dsn.Staking.Registry.copy_id
    dsn.Staking.Validator.encode_validator dsn.State.Account.read_balance dsn.State.Memory.get_bytes
    dsn.State.Memory.set_bytes dsn.State.Payload.counter dsn.State.Payload.uint64_of
    dsn.Types.Amount.unmarshal
kept_set = refl

active_before : get_active_validators opened ≡ (ok (validator ∷ []), opened)
unfolding get_active_validators dsn.Staking.Registry.validator_count dsn.Prelude.Map.lookup
    create_snapshot put_be dsn.Prelude.Sort.sort dsn.Bytes.be_value
    dsn.Staking.Registry.get_validator_id_by_seq dsn.Staking.Registry.get_validator
    dsn.Staking.Validator.decode_validator dsn.Bytes.Do.◌>>=◌ dsn.Bytes.read_uint
    dsn.Bytes.read_full dsn.Bytes.write_uint dsn.Bytes.write_padded dsn.Types.Amount.marshal
    dsn.Bytes.be_bytes dsn.Bytes.Do.pure dsn.Bytes.be_bytes_fuel dsn.Bytes.writes dsn.Bytes.zeros
    dsn.Consensus.Snapshot.Codec.marshal_snapshot compute_validator_set_hash
    dsn.Consensus.Snapshot.Stored.freeze dsn.Consensus.Snapshot.Stored.latest_snapshot_epoch
    dsn.Consensus.Snapshot.Stored.set_latest_snapshot_epoch
    dsn.Consensus.Snapshot.Stored.store_snapshot sum_power dsn.Prelude.Map.insert
    dsn.Prelude.Map.remove dsn.Prelude.Sort.place dsn.Staking.Active.collect
    dsn.Staking.Active.collect_at dsn.Staking.Registry.copy_id
    dsn.Staking.Validator.encode_validator dsn.State.Account.read_balance dsn.State.Memory.get_bytes
    dsn.State.Memory.set_bytes dsn.State.Payload.counter dsn.State.Payload.uint64_of
    dsn.Types.Amount.unmarshal
active_before = refl

active_after : get_active_validators ended ≡ (ok (validator ∷ []), ended)
unfolding get_active_validators dsn.Staking.Registry.validator_count dsn.Prelude.Map.lookup
    create_snapshot put_be dsn.Prelude.Sort.sort dsn.Bytes.be_value
    dsn.Staking.Registry.get_validator_id_by_seq dsn.Staking.Registry.get_validator
    dsn.Staking.Validator.decode_validator dsn.Bytes.Do.◌>>=◌ dsn.Bytes.read_uint
    dsn.Bytes.read_full dsn.Bytes.write_uint dsn.Bytes.write_padded dsn.Types.Amount.marshal
    dsn.Bytes.be_bytes dsn.Bytes.Do.pure dsn.Bytes.be_bytes_fuel dsn.Bytes.writes dsn.Bytes.zeros
    dsn.Consensus.Snapshot.Codec.marshal_snapshot compute_validator_set_hash
    dsn.Consensus.Snapshot.Stored.freeze dsn.Consensus.Snapshot.Stored.latest_snapshot_epoch
    dsn.Consensus.Snapshot.Stored.set_latest_snapshot_epoch
    dsn.Consensus.Snapshot.Stored.store_snapshot sum_power dsn.Prelude.Map.insert
    dsn.Prelude.Map.remove dsn.Prelude.Sort.place dsn.Staking.Active.collect
    dsn.Staking.Active.collect_at dsn.Staking.Registry.copy_id
    dsn.Staking.Validator.encode_validator dsn.State.Account.read_balance dsn.State.Memory.get_bytes
    dsn.State.Memory.set_bytes dsn.State.Payload.counter dsn.State.Payload.uint64_of
    dsn.Types.Amount.unmarshal
active_after = refl

proposes : weighted_proposer_at_height 5 (validator ∷ []) ≡ ok 21
unfolding weighted_proposer_at_height
proposes = refl

checks_proof : check_proof summing block.header proof set_of_one ≡ ok tt
unfolding check_proof assemble put_be dsn.Consensus.Execution.compute_tx_root dsn.Prelude.Sort.sort
    dsn.Bytes.write_uint dsn.Bytes.write_var_bytes dsn.Types.Signature.write_short_signature
    dsn.Consensus.Execution.compute_hashes_root dsn.Consensus.Execution.validator_root
    dsn.Prelude.Map.lookup dsn.Prelude.Map.insert
checks_proof = refl

kept_at_end : get_snapshot 1 ended ≡ ok (some set_of_one)
unfolding get_snapshot dsn.Prelude.Map.lookup create_snapshot get_active_validators
    dsn.Staking.Registry.validator_count put_be dsn.Prelude.Sort.sort
    dsn.Staking.Registry.get_validator_id_by_seq dsn.Staking.Registry.get_validator
    dsn.Staking.Validator.decode_validator dsn.Bytes.Do.◌>>=◌ dsn.Bytes.read_uint
    dsn.Bytes.read_full dsn.Bytes.write_uint dsn.Bytes.write_padded dsn.Types.Amount.marshal
    dsn.Bytes.be_bytes dsn.Bytes.Do.fail dsn.Bytes.Do.pure dsn.Bytes.be_bytes_fuel
    dsn.Bytes.be_value dsn.Bytes.writes dsn.Bytes.zeros dsn.Consensus.Snapshot.Codec.decode_snapshot
    dsn.Consensus.Snapshot.Codec.decode_validators dsn.Consensus.Snapshot.Codec.marshal_snapshot
    dsn.Consensus.Snapshot.Codec.read_some dsn.Consensus.Snapshot.Codec.read_validators
    dsn.Consensus.Snapshot.Codec.unmarshal_snapshot compute_validator_set_hash
    dsn.Consensus.Snapshot.Stored.freeze dsn.Consensus.Snapshot.Stored.latest_snapshot_epoch
    dsn.Consensus.Snapshot.Stored.set_latest_snapshot_epoch
    dsn.Consensus.Snapshot.Stored.store_snapshot sum_power dsn.Prelude.Map.insert
    dsn.Prelude.Map.remove dsn.Prelude.Sort.place dsn.Staking.Active.collect
    dsn.Staking.Active.collect_at dsn.Staking.Registry.copy_id
    dsn.Staking.Validator.encode_validator dsn.State.Account.read_balance dsn.State.Memory.get_bytes
    dsn.State.Memory.set_bytes dsn.State.Payload.counter dsn.State.Payload.uint64_of
    dsn.Types.Amount.unmarshal
kept_at_end = refl

certifies : validate_commit_proof summing block.header (some proof) ended 1 ≡ ok tt
unfolding validate_commit_proof assemble put_be
certifies = rw kept_at_end checks_proof

build_block-validate_example :
    validate_block env (record block { commit_proof = some proof }) parent 33 epoch_one
    ≡ (ok tt, ended)
build_block-validate_example =
    build_block-validate env sign request parent (1, 876) set_of_one (validator ∷ []) block
      (some proof) epoch_one opened ended refl refl starts still_epoch_one kept_set refl
      active_before proposes builds active_after (omega arith) certifies
