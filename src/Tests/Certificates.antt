-- ===== src/Tests/Certificates.antt =====
-- Commit proofs over the set of two validators, and the snapshot of that set.
use dsn.Prelude.{ℕ, ◌+◌, ◌≡◌, refl, [], ◌∷◌, some, true, foldl, arith}
use dsn.Prelude.Map.{lookup, insert, remove}
use dsn.Error.{ok}
use dsn.Types.Vote.{Vote, Crypto}
use dsn.Types.Commit.{CommitProof}
use dsn.Types.Block.{BlockHeader, header_hash}
use dsn.State.Key.{snapshot_key}
use dsn.State.Memory.{State, get_bytes}
use dsn.Consensus.Snapshot.{ValidatorSnapshot, validator_by_id}
use dsn.Consensus.Snapshot.Codec.{marshal_snapshot, unmarshal_snapshot}
use dsn.Consensus.Snapshot.Stored.{get_snapshot}
use dsn.Consensus.Voting.{
  VotingState, new_voting_state, add_precommit, has_precommit_majority, Reached, here, precommitted,
}
use dsn.Consensus.Certificate.{build_commit_proof, validate_commit_proof, check_proof}
use dsn.Consensus.Certificate.Accepted.{
  Certified, IsPrecommitOf, validate_commit_proof-Certified, validate_commit_proof-share_signer,
}
use dsn.Consensus.Certificate.Built.{build_commit_proof-validate}
use dsn.Tests.Blocks.{set, distinct, bounded}
use dsn.Tests.Validators.{bytes_of}

-- A digest that sums the bytes, and a check that accepts.
abbrev pub summing : Crypto
summing = record { sha256 = foldl (λ n b. n + b) 0; verify = λ _ _ _. true }

abbrev header : ℕ → BlockHeader
header root = record {
  version = 1;
  height = 5;
  previous_hash = 0;
  state_root = root;
  tx_root = 0;
  receipt_root = 0;
  validator_root = 0;
  validator_set_hash = 6;
  epoch = 1;
  timestamp = 0;
  proposer = 8;
  events_root = 0;
}

-- A precommit of the validator 8, whose power is two thirds of the set's.
abbrev precommit_for : ℕ → Vote
precommit_for hash = record {
  vote_type = 2;
  height = 5;
  round = 0;
  block_hash = hash;
  validator = 8;
  signature = 4 ∷ [];
}

abbrev proof_for : ℕ → CommitProof
proof_for hash = record {
  height = 5;
  block_hash = hash;
  precommits = precommit_for hash ∷ [];
  total_power = 3;
  signed_power = 2;
  set_hash = 6;
}

abbrev pub with_snapshot : ValidatorSnapshot → State
with_snapshot snap = record {
  accounts = [];
  kvstore = (snapshot_key snap.epoch, bytes_of (marshal_snapshot snap)) ∷ [];
  snapshots = [];
}

hash_21 : header_hash summing (header 0) ≡ 21
unfolding header_hash dsn.Bytes.put_be
hash_21 = refl

hash_22 : header_hash summing (header 1) ≡ 22
unfolding header_hash dsn.Bytes.put_be
hash_22 = refl

stored : get_snapshot 1 (with_snapshot set) ≡ ok (some set)
unfolding get_snapshot lookup dsn.Bytes.Do.◌>>=◌ dsn.Bytes.read_uint dsn.Bytes.read_full
    marshal_snapshot dsn.Bytes.writes dsn.Bytes.write_uint dsn.Staking.Validator.encode_validator
    dsn.Bytes.write_padded dsn.Types.Amount.marshal dsn.Bytes.be_bytes dsn.Bytes.put_be
    dsn.Consensus.Snapshot.Codec.read_validators dsn.Staking.Validator.decode_validator
    dsn.State.Account.read_balance dsn.Types.Amount.unmarshal dsn.Bytes.Do.fail dsn.Bytes.Do.pure
    dsn.Bytes.be_bytes_fuel dsn.Bytes.be_value dsn.Bytes.zeros
    dsn.Consensus.Snapshot.Codec.decode_snapshot dsn.Consensus.Snapshot.Codec.decode_validators
    dsn.Consensus.Snapshot.Codec.read_some unmarshal_snapshot get_bytes
stored = refl

checked_21 : check_proof summing (header 0) (proof_for 21) set ≡ ok tt
unfolding check_proof dsn.Bytes.put_be lookup insert remove
checked_21 = refl

accepted_21 :
    validate_commit_proof summing (header 0) (some (proof_for 21)) (with_snapshot set) 1 ≡ ok tt
unfolding validate_commit_proof
accepted_21 = rw stored checked_21

checked_22 : check_proof summing (header 1) (proof_for 22) set ≡ ok tt
unfolding check_proof dsn.Bytes.put_be lookup insert remove
checked_22 = refl

accepted_22 :
    validate_commit_proof summing (header 1) (some (proof_for 22)) (with_snapshot set) 1 ≡ ok tt
unfolding validate_commit_proof
accepted_22 = rw stored checked_22

validate_commit_proof-Certified_example : Certified summing (header 0) (proof_for 21) set
validate_commit_proof-Certified_example =
    validate_commit_proof-Certified summing (header 0) (proof_for 21) (with_snapshot set) 1 set
      (omega arith) stored bounded accepted_21

validate_commit_proof-share_signer_example :
    (id : ℕ) × IsPrecommitOf summing (proof_for 21) set id
    × IsPrecommitOf summing (proof_for 22) set id
validate_commit_proof-share_signer_example =
    validate_commit_proof-share_signer summing (header 0) (header 1) (proof_for 21) (proof_for 22)
      (with_snapshot set) (with_snapshot set) 1 set (omega arith) (omega arith) stored stored
      bounded accepted_21 accepted_22

-- The voting state that has the precommit of the validator 8.
abbrev voted : VotingState
voted = record (new_voting_state 5 0 (header_hash summing (header 0)) set) {
  precommit_power = 2;
  precommits = (8, precommit_for 21) ∷ [];
}

accepts_vote :
    add_precommit summing
      (precommit_for 21)
      (new_voting_state 5 0 (header_hash summing (header 0)) set)
    ≡ ok voted
unfolding add_precommit new_voting_state header_hash dsn.Bytes.put_be lookup insert remove
accepts_vote = refl

Reached-voted : Reached summing (new_voting_state 5 0 (header_hash summing (header 0)) set) voted
Reached-voted =
    precommitted (precommit_for 21) (new_voting_state 5 0 (header_hash summing (header 0)) set)
      voted here accepts_vote

majority : has_precommit_majority voted ≡ true
unfolding has_precommit_majority new_voting_state
majority = refl

build_commit_proof-validate_example :
    (proof : CommitProof) × (build_commit_proof voted ≡ ok proof)
    × (validate_commit_proof summing (header 0) (some proof) (with_snapshot set) 1 ≡ ok tt)
unfolding dsn.Types.Vote.validate_vote
build_commit_proof-validate_example =
    build_commit_proof-validate summing (header 0) 0 set voted (with_snapshot set) 1 distinct
      Reached-voted majority ((refl, refl), tt) stored
