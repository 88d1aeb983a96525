-- ===== src/Consensus/Voting/Quorum.antt =====
-- Two precommit majorities over one validator set share at least a third of its power.
use dsn.Prelude.{
  ℕ, ◌*◌, ◌^◌, ◌<◌, ◌≤◌, ◌≡◌, List, [], ◌∷◌, some, Bool, true, false, ◌==◌, ◌&&◌, leb,
  if◌then◌else◌, wrap64, arith, inl, inr, Bool-cases, Option-cases, ◌∙◌, ap,
}
use dsn.Prelude.Map.{lookup, nat_eq}
use dsn.Types.Vote.{Vote, Crypto, verify_vote}
use dsn.Staking.Validator.{Validator}
use dsn.Consensus.Snapshot.{ValidatorSnapshot, build_indexes, IsDistinct}
use dsn.Consensus.Snapshot.Power.{
  is_voter, weigh, power_of, full_power, power_of-overlap, power_of-le,
}
use dsn.Consensus.Voting.{VotingState, new_voting_state, has_precommit_majority, Reached}
use dsn.Consensus.Voting.Counted.{IsWellCounted, Reached-IsWellCounted}

-- The total is the sum of the powers and the products of the two-thirds test fit a uint64.
pub record IsBounded (s : ValidatorSnapshot) : Type 0 where
  pub distinct : IsDistinct s.validators
  pub total_eq : s.total_power ≡ full_power s.validators
  pub fits : full_power s.validators * 3 < 2 ^ 64

abbrev pub both : VotingState → VotingState → ℕ → Bool
both vs vs' id = is_voter vs.precommits id && is_voter vs'.precommits id

pub majority_numbers :
    (t p full q : ℕ)
    → t ≡ full
    → q ≡ wrap64 p
    → p ≤ full
    → full * 3 < 2 ^ 64
    → (if t == 0 then false else leb (wrap64 (t * 2)) (wrap64 (q * 3))) ≡ true
    → (0 < full) × (full * 2 ≤ p * 3)
majority_numbers t p full q ht hq hp hf h = ground arith

-- What a majority says of the powers, without the wrap-around.
majority_power :
    (c : Crypto) (height round block_hash : ℕ) (s : ValidatorSnapshot) (vs : VotingState)
    → IsBounded s
    → Reached c (new_voting_state height round block_hash s) vs
    → has_precommit_majority vs ≡ true
    → (0 < full_power s.validators)
      × (full_power s.validators * 2 ≤ power_of (is_voter vs.precommits) s.validators * 3)
unfolding has_precommit_majority new_voting_state
majority_power c height round block_hash s vs b r h =
    let w = Reached-IsWellCounted c height round block_hash s vs b.distinct r in
    let total : vs.snapshot.total_power ≡ full_power s.validators =
      ap (λ x. x.total_power) w.snapshot_kept ∙ b.total_eq in
    majority_numbers vs.snapshot.total_power (power_of (is_voter vs.precommits) s.validators)
      (full_power s.validators) vs.precommit_power total w.precommits_tallied.counted
      (power_of-le (is_voter vs.precommits) s.validators) b.fits h

-- Let two states be reached by accepted votes, for whatever blocks, heights and rounds, over one
-- validator set whose ids are distinct, whose total is the sum of its powers, and three times
-- whose power fits a uint64. If both have a precommit majority, the validators that precommitted
-- in both have at least a third of the set's power, which is not zero.
pub majorities_overlap :
    (c : Crypto) (height round block height' round' block' : ℕ) (s : ValidatorSnapshot)
    (vs vs' : VotingState)
    → IsBounded s
    → Reached c (new_voting_state height round block s) vs
    → Reached c (new_voting_state height' round' block' s) vs'
    → has_precommit_majority vs ≡ true
    → has_precommit_majority vs' ≡ true
    → (0 < s.total_power) × (s.total_power ≤ power_of (both vs vs') s.validators * 3)
majorities_overlap c height round block height' round' block' s vs vs' b r r' h h' =
    let m = majority_power c height round block s vs b r h in
    let m' = majority_power c height' round' block' s vs' b r' h' in
    let overlap =
      power_of-overlap (is_voter vs.precommits) (is_voter vs'.precommits) s.validators in
    (ground (arith, m.0, b.total_eq), ground (arith, m.1, m'.1, overlap, b.total_eq))

-- A vote for the block of a state by a validator of the set, which that validator signed.
pub record Signed (c : Crypto) (s : ValidatorSnapshot) (height round block_hash id : ℕ)
    : Type 0 where
  pub vote : Vote
  pub is_for : (vote.height ≡ height) × (vote.round ≡ round) × (vote.block_hash ≡ block_hash)
  pub validator_eq : vote.validator ≡ id
  pub member : Validator
  pub is_member : lookup id (build_indexes [] s.validators) ≡ some member
  pub is_signed : verify_vote c vote member.public_key ≡ true

pub positive-voter :
    (p : ℕ → Bool) (vs : List Validator) → 0 < power_of p vs → (id : ℕ) × (p id ≡ true)
unfolding weigh
positive-voter p [] h = ground arith
positive-voter p (v ∷ vs) h = elim (Bool-cases (p v.consensus_id)) [
  | inl e ↦ (v.consensus_id, e)
  | inr e ↦ positive-voter p vs (ground (arith, h, e))
]

voter-Signed :
    (c : Crypto) (height round block_hash : ℕ) (s : ValidatorSnapshot) (vs : VotingState) (id : ℕ)
    → IsWellCounted c (new_voting_state height round block_hash s) vs
    → is_voter vs.precommits id ≡ true
    → Signed c s height round block_hash id
unfolding new_voting_state
voter-Signed c height round block_hash s vs id w h = elim (Option-cases (lookup id vs.precommits)) [
  | inl e ↦ ground (arith, h, e)
  | inr (vote, e) ↦
      let k = w.precommits_tallied.checked id vote e in
      record {
        vote = vote;
        is_for = (k.height_eq, k.round_eq, k.block_eq);
        validator_eq = k.validator_eq;
        member = k.member;
        is_member = k.is_member;
        is_signed = k.is_signed;
      }
]

-- Let two states be reached by accepted votes over one validator set whose ids are distinct,
-- whose total is the sum of its powers, and three times whose power fits a uint64. If both have
-- a precommit majority, some validator of the set signed a vote for the block, height and round
-- of each: of two majorities for different blocks of one height and round, it is one that signed
-- both.
pub majorities_signer :
    (c : Crypto) (height round block height' round' block' : ℕ) (s : ValidatorSnapshot)
    (vs vs' : VotingState)
    → IsBounded s
    → Reached c (new_voting_state height round block s) vs
    → Reached c (new_voting_state height' round' block' s) vs'
    → has_precommit_majority vs ≡ true
    → has_precommit_majority vs' ≡ true
    → (id : ℕ) × Signed c s height round block id × Signed c s height' round' block' id
majorities_signer c height round block height' round' block' s vs vs' b r r' h h' =
    let o = majorities_overlap c height round block height' round' block' s vs vs' b r r' h h' in
    let v = positive-voter (both vs vs') s.validators (ground (arith, o.0, o.1)) in
    (
      v.0,
      voter-Signed c height round block s vs v.0
          (Reached-IsWellCounted c height round block s vs b.distinct r) (ground (arith, v.1)),
      voter-Signed c height' round' block' s vs' v.0
          (Reached-IsWellCounted c height' round' block' s vs' b.distinct r') (ground (arith, v.1)),
    )
