-- ===== src/Consensus/Voting.antt =====
-- consensus/voting.go: votes on one block of one height and round, counted by their power in a
-- frozen validator set.
pub mod Counted
pub mod Quorum
use dsn.Prelude.{
  ℕ, ◌+◌, ◌*◌, ◌≡◌, List, [], ◌∷◌, Option, none, some, Bool, true, false, leb, ◌==◌, not,
  if◌then◌else◌, wrap64,
}
use dsn.Prelude.Map.{Map, lookup, insert, nat_eq}
use dsn.Error.{
  Result, ok, err, fail_if, vote_height_mismatch, vote_round_mismatch, vote_block_mismatch,
  duplicate_vote, invalid_signature, ◌>>=◌, ◌>>◌,
}
use dsn.Types.Vote.{Vote, Crypto, verify_vote}
use dsn.Staking.Validator.{Validator}
use dsn.Consensus.Snapshot.{ValidatorSnapshot, validator_by_id}

pub record VotingState : Type 0 where
  pub height : ℕ
  pub round : ℕ
  pub block_hash : ℕ
  pub snapshot : ValidatorSnapshot
  pub prevotes : Map ℕ Vote
  pub precommits : Map ℕ Vote
  pub prevote_power : ℕ
  pub precommit_power : ℕ

unfoldable pub new_voting_state : ℕ → ℕ → ℕ → ValidatorSnapshot → VotingState
new_voting_state height round block_hash snapshot = record {
  height = height;
  round = round;
  block_hash = block_hash;
  snapshot = snapshot;
  prevotes = [];
  precommits = [];
  prevote_power = 0;
  precommit_power = 0;
}

-- A tally of one kind of vote: the power so far and the votes by validator.
abbrev pub Tally : Type 0
Tally = ℕ × Map ℕ Vote

-- addVote, on the counter and the map that its two pointers name. It reads only the vote's
-- height, round, block, validator and signature, not its type.
unfoldable pub add_vote : Crypto → VotingState → Vote → Tally → Result Tally
unfolding validator_by_id verify_vote
add_vote c vs vote (power, votes) = do
  fail_if (not (vote.height == vs.height)) vote_height_mismatch
  fail_if (not (vote.round == vs.round)) vote_round_mismatch
  fail_if (not (vote.block_hash == vs.block_hash)) vote_block_mismatch
  fail_if (elim (lookup vote.validator votes) [ none ↦ false | some _ ↦ true ]) duplicate_vote
  val ← validator_by_id vs.snapshot vote.validator
  fail_if (not (verify_vote c vote val.public_key)) invalid_signature
  ok (wrap64 (power + val.voting_power), insert vote.validator vote votes)

unfoldable pub add_prevote : Crypto → Vote → VotingState → Result VotingState
unfolding add_vote
add_prevote c vote vs = do
  t ← add_vote c vs vote (vs.prevote_power, vs.prevotes)
  ok (record vs { prevote_power = t.0; prevotes = t.1 })

unfoldable pub add_precommit : Crypto → Vote → VotingState → Result VotingState
unfolding add_vote
add_precommit c vote vs = do
  t ← add_vote c vs vote (vs.precommit_power, vs.precommits)
  ok (record vs { precommit_power = t.0; precommits = t.1 })

-- HasPrevoteMajority and HasPrecommitMajority: the products are computed in uint64.
unfoldable pub has_majority : ℕ → ValidatorSnapshot → Bool
has_majority power s =
    if s.total_power == 0 then false else leb (wrap64 (s.total_power * 2)) (wrap64 (power * 3))

unfoldable pub has_prevote_majority : VotingState → Bool
unfolding has_majority
has_prevote_majority vs = has_majority vs.prevote_power vs.snapshot

unfoldable pub has_precommit_majority : VotingState → Bool
unfolding has_majority
has_precommit_majority vs = has_majority vs.precommit_power vs.snapshot

-- The states that a new one reaches by accepted votes, in any order.
pub data Reached (c : Crypto) (start : VotingState) : VotingState → Type 0 where
  here : Reached c start start
  prevoted :
      (vote : Vote) (vs vs' : VotingState)
      → Reached c start vs
      → add_prevote c vote vs ≡ ok vs'
      → Reached c start vs'
  precommitted :
      (vote : Vote) (vs vs' : VotingState)
      → Reached c start vs
      → add_precommit c vote vs ≡ ok vs'
      → Reached c start vs'
