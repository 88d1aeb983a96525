-- ===== src/Consensus/Certificate.antt =====
-- consensus/voting.go: BuildCommitProof, and consensus/block_validator.go: validateCommitProof.
pub mod Accepted
pub mod Checked
pub mod Listed
pub mod Built
use dsn.Prelude.{
  ℕ, ◌+◌, ◌≡◌, List, [], ◌∷◌, Option, none, some, Bool, true, false, map, length, ltb, ◌==◌, not,
  if◌then◌else◌, wrap64,
}
use dsn.Prelude.Map.{Map, lookup, insert, nat_eq}
use dsn.Prelude.Sort.{sort}
use dsn.Error.{
  Result, ok, err, fail_if, no_precommit_majority, invalid_commit_proof, wrong_validator_set_hash,
  ◌>>=◌, ◌>>◌,
}
use dsn.Types.Vote.{Vote, Crypto, verify_vote, validate_vote, precommit}
use dsn.Types.Commit.{CommitProof, has_two_thirds_majority}
use dsn.Types.Block.{BlockHeader, header_hash}
use dsn.State.Memory.{State}
use dsn.Consensus.Snapshot.{ValidatorSnapshot, validator_by_id}
use dsn.Consensus.Snapshot.Stored.{get_snapshot}
use dsn.Consensus.Voting.{VotingState, has_precommit_majority}

-- The order of BuildCommitProof's sort.Slice; no two of the votes have the same validator.
abbrev pub vote_precedes : Vote → Vote → Bool
vote_precedes v w = ltb v.validator w.validator

unfoldable pub build_commit_proof : VotingState → Result CommitProof
unfolding has_precommit_majority
build_commit_proof vs = do
  fail_if (not (has_precommit_majority vs)) no_precommit_majority
  ok (record {
    height = vs.height;
    block_hash = vs.block_hash;
    precommits = sort vote_precedes (map (λ e. e.1) vs.precommits);
    total_power = vs.snapshot.total_power;
    signed_power = vs.precommit_power;
    set_hash = vs.snapshot.set_hash;
  })

-- The loop that compares each validator with the one before it.
unfoldable pub is_sorted_after : ℕ → List Vote → Bool
is_sorted_after prev [] = true
is_sorted_after prev (v ∷ vs) =
    if ltb v.validator prev then false else is_sorted_after v.validator vs

unfoldable pub is_sorted : List Vote → Bool
unfolding is_sorted_after
is_sorted [] = true
is_sorted (v ∷ vs) = is_sorted_after v.validator vs

-- What the loop over the precommits keeps: the validators seen, a map of which only the presence
-- of a key matters, and the power.
abbrev pub Progress : Type 0
Progress = Map ℕ (Unit {0}) × ℕ

-- One round of the loop.
unfoldable pub check_precommit :
    Crypto → CommitProof → ValidatorSnapshot → Vote → Progress → Result Progress
unfolding validate_vote validator_by_id verify_vote
check_precommit c proof snap vote (seen, power) = do
  validate_vote vote
  fail_if (not (vote.vote_type == precommit)) invalid_commit_proof
  fail_if (not (vote.height == proof.height)) invalid_commit_proof
  fail_if (not (vote.block_hash == proof.block_hash)) invalid_commit_proof
  fail_if (elim (lookup vote.validator seen) [ none ↦ false | some _ ↦ true ]) invalid_commit_proof
  val ← elim (validator_by_id snap vote.validator) [
    | err _ ↦ err invalid_commit_proof
    | ok v ↦ ok v
  ]
  fail_if (not (verify_vote c vote val.public_key)) invalid_commit_proof
  ok (insert vote.validator tt seen, wrap64 (power + val.voting_power))

unfoldable pub check_precommits :
    Crypto → CommitProof → ValidatorSnapshot → List Vote → Progress → Result Progress
unfolding check_precommit
check_precommits c proof snap [] p = ok p
check_precommits c proof snap (v ∷ vs) p = do
  p' ← check_precommit c proof snap v p
  check_precommits c proof snap vs p'

-- validateCommitProof, once the snapshot of the epoch is found.
unfoldable pub check_proof :
    Crypto → BlockHeader → CommitProof → ValidatorSnapshot → Result (Unit {0})
unfolding header_hash check_precommits has_two_thirds_majority is_sorted
check_proof c header proof snap = do
  fail_if (not (proof.set_hash == snap.set_hash)) invalid_commit_proof
  fail_if (not (proof.height == header.height)) invalid_commit_proof
  fail_if (not (proof.block_hash == header_hash c header)) invalid_commit_proof
  fail_if (not (proof.total_power == snap.total_power)) invalid_commit_proof
  fail_if (ltb (length snap.validators) (length proof.precommits)) invalid_commit_proof
  fail_if (not (is_sorted proof.precommits)) invalid_commit_proof
  p ← check_precommits c proof snap proof.precommits ([], 0)
  fail_if (not (p.1 == proof.signed_power)) invalid_commit_proof
  fail_if (not (has_two_thirds_majority proof)) wrong_validator_set_hash

unfoldable pub validate_commit_proof :
    Crypto → BlockHeader → Option CommitProof → State → ℕ → Result (Unit {0})
unfolding get_snapshot check_proof
validate_commit_proof c header proof s epoch = if header.height == 0 then ok tt else elim proof [
  | none ↦ err invalid_commit_proof
  | some p ↦ do
    found ← get_snapshot epoch s
    elim found [ none ↦ err invalid_commit_proof | some snap ↦ check_proof c header p snap ]
]
