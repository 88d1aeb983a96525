-- ===== src/Tests/Blocks.antt =====
-- Votes and proposers over a set of two validators.
use dsn.Prelude.{ℕ, ◌*◌, ◌≡◌, ◌<◌, ◌≤◌, refl, [], ◌∷◌, true, arith}
use dsn.Prelude.Map.{lookup, insert, remove}
use dsn.Error.{ok}
use dsn.Types.Vote.{Vote, Crypto}
use dsn.Staking.Validator.{Validator}
use dsn.Consensus.Snapshot.{ValidatorSnapshot, IsDistinct}
use dsn.Consensus.Snapshot.Power.{power_of, full_power}
use dsn.Consensus.Voting.{
  VotingState, new_voting_state, add_precommit, has_precommit_majority, Reached, here, precommitted,
}
use dsn.Consensus.Voting.Counted.{IsWellCounted, Reached-IsWellCounted}
use dsn.Consensus.Voting.Quorum.{IsBounded, Signed, both, majorities_overlap, majorities_signer}
use dsn.Consensus.Proposer.{weighted_proposer_at_height}
use dsn.Consensus.Proposer.Fair.{weighted_proposer_place}

abbrev pub member : ℕ → ℕ → Validator
member id power = record {
  consensus_id = id;
  public_key = 2;
  operator_address = 3;
  reward_address = 3;
  bonded_stake = power;
  status = 1;
  commission_rate = 0;
  voting_power = power;
  jailed_until = 0;
  activation_epoch = 1;
  unstake_epoch = 0;
}

abbrev pub set : ValidatorSnapshot
set = record { epoch = 1; validators = member 8 2 ∷ member 9 1 ∷ []; total_power = 3; set_hash = 6 }

abbrev crypto : Crypto
crypto = record { sha256 = λ _. 1; verify = λ _ _ _. true }

abbrev vote : ℕ → Vote
vote block = record {
  vote_type = 2;
  height = 5;
  round = 0;
  block_hash = block;
  validator = 8;
  signature = 4 ∷ [];
}

-- The state after the vote of the validator 8 for a block.
abbrev voted : ℕ → VotingState
voted block = record (new_voting_state 5 0 block set) {
  precommit_power = 2;
  precommits = (8, vote block) ∷ [];
}

accepts_77 : add_precommit crypto (vote 77) (new_voting_state 5 0 77 set) ≡ ok (voted 77)
unfolding add_precommit new_voting_state lookup insert remove
accepts_77 = refl

accepts_78 : add_precommit crypto (vote 78) (new_voting_state 5 0 78 set) ≡ ok (voted 78)
unfolding add_precommit new_voting_state lookup insert remove
accepts_78 = refl

Reached-77 : Reached crypto (new_voting_state 5 0 77 set) (voted 77)
Reached-77 = precommitted (vote 77) (new_voting_state 5 0 77 set) (voted 77) here accepts_77

Reached-78 : Reached crypto (new_voting_state 5 0 78 set) (voted 78)
Reached-78 = precommitted (vote 78) (new_voting_state 5 0 78 set) (voted 78) here accepts_78

pub distinct : IsDistinct set.validators
unfolding IsDistinct
distinct = (refl, (refl, tt))

full : full_power set.validators ≡ 3
unfolding full_power
full = refl

pub bounded : IsBounded set
bounded = record {
  distinct = distinct;
  total_eq = ground (arith, full);
  fits = ground (arith, full);
}

majority_77 : has_precommit_majority (voted 77) ≡ true
unfolding has_precommit_majority new_voting_state
majority_77 = refl

majority_78 : has_precommit_majority (voted 78) ≡ true
unfolding has_precommit_majority new_voting_state
majority_78 = refl

Reached-IsWellCounted_example : IsWellCounted crypto (new_voting_state 5 0 77 set) (voted 77)
Reached-IsWellCounted_example =
    Reached-IsWellCounted crypto 5 0 77 set (voted 77) distinct Reached-77

majorities_overlap_example :
    (0 < 3) × (3 ≤ power_of (both (voted 77) (voted 78)) set.validators * 3)
majorities_overlap_example =
    majorities_overlap crypto 5 0 77 5 0 78 set (voted 77) (voted 78) bounded Reached-77 Reached-78
      majority_77 majority_78

majorities_signer_example : (id : ℕ) × Signed crypto set 5 0 77 id × Signed crypto set 5 0 78 id
majorities_signer_example =
    majorities_signer crypto 5 0 77 5 0 78 set (voted 77) (voted 78) bounded Reached-77 Reached-78
      majority_77 majority_78

weighted_proposer_place_example : weighted_proposer_at_height 5 set.validators ≡ ok 9
unfolding full_power
weighted_proposer_place_example =
    weighted_proposer_place 5 (member 8 2 ∷ []) (member 9 1) [] (omega arith) (omega arith)
      (omega arith)
