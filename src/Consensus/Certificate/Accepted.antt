-- ===== src/Consensus/Certificate/Accepted.antt =====
-- What a block's commit proof proves where it is accepted, and what two of them share.
use dsn.Prelude.{
  ℕ, suc, ◌+◌, ◌*◌, ◌<◌, ◌≤◌, ◌≡◌, ◌≢◌, refl, ◌∙◌, List, [], ◌∷◌, none, some, true, ◌==◌, ◌&&◌,
  get_elem?, wrap64, arith, ==_iff, Bool-cases, Option-cases, inl, inr,
}
use mathlib.Core.Path.{subst}
use dsn.Prelude.Map.{Map, lookup, insert, nat_eq, lookup-insert, lookup-empty}
use dsn.Error.{ok, Result-cases}
use dsn.Types.Vote.{Vote, Crypto, verify_vote, precommit}
use dsn.Types.Commit.{CommitProof, has_two_thirds_majority}
use dsn.Types.Block.{BlockHeader, header_hash}
use dsn.State.Memory.{State}
use dsn.Staking.Validator.{Validator}
use dsn.Consensus.Snapshot.{ValidatorSnapshot, build_indexes, validator_by_id, IsDistinct}
use dsn.Consensus.Snapshot.Stored.{get_snapshot}
use dsn.Consensus.Snapshot.Power.{
  is_voter, power_of, full_power, weigh-insert, weigh-none, power_of-overlap, power_of-le,
}
use dsn.Consensus.Voting.Quorum.{IsBounded, majority_numbers, positive-voter}
use dsn.Consensus.Certificate.{
  Progress, check_precommit, check_precommits, check_proof, validate_commit_proof,
}

-- A precommit of a proof, for its height and block, that a validator of the set signed.
pub record IsPrecommitOf (c : Crypto) (proof : CommitProof) (snap : ValidatorSnapshot) (id : ℕ)
    : Type 0 where
  pub vote : Vote
  pub position : ℕ
  pub is_in : get_elem? proof.precommits position ≡ some vote
  pub type_eq : vote.vote_type ≡ precommit
  pub height_eq : vote.height ≡ proof.height
  pub block_eq : vote.block_hash ≡ proof.block_hash
  pub validator_eq : vote.validator ≡ id
  pub member : Validator
  pub is_member : lookup id (build_indexes [] snap.validators) ≡ some member
  pub is_signed : verify_vote c vote member.public_key ≡ true

-- What the loop has established: the power is that of the validators seen, and each has signed.
pub record IsProgress (c : Crypto) (proof : CommitProof) (snap : ValidatorSnapshot) (p : Progress)
    : Type 0 where
  pub counted : p.1 ≡ wrap64 (power_of (is_voter p.0) snap.validators)
  pub signed : (id : ℕ) → is_voter p.0 id ≡ true → IsPrecommitOf c proof snap id

-- What a round that succeeds has checked.
record IsCountedVote (c : Crypto) (proof : CommitProof) (snap : ValidatorSnapshot) (vote : Vote)
    (p p' : Progress) : Type 0 where
  type_eq : vote.vote_type ≡ precommit
  height_eq : vote.height ≡ proof.height
  block_eq : vote.block_hash ≡ proof.block_hash
  is_new : lookup vote.validator p.0 ≡ none
  member : Validator
  is_member : lookup vote.validator (build_indexes [] snap.validators) ≡ some member
  is_signed : verify_vote c vote member.public_key ≡ true
  seen_eq : p'.0 ≡ insert vote.validator tt p.0
  power_eq : p'.1 ≡ wrap64 (p.1 + member.voting_power)

counted_vote :
    (c : Crypto) (proof : CommitProof) (snap : ValidatorSnapshot) (vote : Vote) (p p' : Progress)
    → check_precommit c proof snap vote p ≡ ok p'
    → IsCountedVote c proof snap vote p p'
unfolding check_precommit validator_by_id
counted_vote c proof snap vote (seen, power) (seen', power') h =
    elim (Option-cases (lookup vote.validator (build_indexes [] snap.validators))) [
      | inl e ↦ ground (arith, h, e)
      | inr (v, e) ↦ record {
        type_eq = ground (arith, h, e, ==_iff vote.vote_type precommit);
        height_eq = ground (arith, h, e, ==_iff vote.height proof.height);
        block_eq = ground (arith, h, e, ==_iff vote.block_hash proof.block_hash);
        is_new = ground (arith, h, e);
        member = v;
        is_member = e;
        is_signed = ground (arith, h, e);
        seen_eq = ground (arith, h, e);
        power_eq = ground (arith, h, e);
      }
    ]

check_precommit-IsProgress :
    (c : Crypto) (proof : CommitProof) (snap : ValidatorSnapshot) (vote : Vote) (i : ℕ)
    (p p' : Progress)
    → IsDistinct snap.validators
    → get_elem? proof.precommits i ≡ some vote
    → IsProgress c proof snap p
    → check_precommit c proof snap vote p ≡ ok p'
    → IsProgress c proof snap p'
check_precommit-IsProgress c proof snap vote i p p' d e w h =
    let a = counted_vote c proof snap vote p p' h in
    record { counted = counted a; signed = signed a }
  where
    counted :
        IsCountedVote c proof snap vote p p'
        → p'.1 ≡ wrap64 (power_of (is_voter p'.0) snap.validators)
    counted a = rw (a.seen_eq) (
        a.power_eq
        ∙ ground (
          arith,
          w.counted,
          weigh-insert (λ v. v.voting_power) vote.validator tt p.0 a.member snap.validators a.is_new
              a.is_member d,
        ))

    signed :
        IsCountedVote c proof snap vote p p'
        → (id : ℕ) → is_voter p'.0 id ≡ true
        → IsPrecommitOf c proof snap id
    signed a id q = elim (Bool-cases (vote.validator == id)) [
      | inl same ↦ subst (IsPrecommitOf c proof snap) ((==_iff vote.validator id).0 same) (record {
        vote = vote;
        position = i;
        is_in = e;
        type_eq = a.type_eq;
        height_eq = a.height_eq;
        block_eq = a.block_eq;
        validator_eq = refl;
        member = a.member;
        is_member = a.is_member;
        is_signed = a.is_signed;
      })
      | inr other ↦
          w.signed id (ground (arith, q, a.seen_eq, other, lookup-insert vote.validator id tt p.0))
    ]

check_precommits-IsProgress :
    (c : Crypto) (proof : CommitProof) (snap : ValidatorSnapshot) (vs : List Vote) (p p' : Progress)
    → IsDistinct snap.validators
    → ((i : ℕ) (v : Vote)
        → get_elem? vs i ≡ some v
        → (j : ℕ) × (get_elem? proof.precommits j ≡ some v))
    → IsProgress c proof snap p
    → check_precommits c proof snap vs p ≡ ok p'
    → IsProgress c proof snap p'
unfolding check_precommits
check_precommits-IsProgress c proof snap [] p p' d sub w h =
    subst (IsProgress c proof snap) (ground (arith, h)) w
check_precommits-IsProgress c proof snap (v ∷ vs) p p' d sub w h =
    elim (Result-cases (check_precommit c proof snap v p)) [
      | inr (x, e) ↦ ground (arith, h, e)
      | inl (q, e) ↦
          let (j, at) = sub 0 v refl in
          check_precommits-IsProgress c proof snap vs q p' d (λ i. sub (suc i))
            (check_precommit-IsProgress c proof snap v j p q d at w e) (ground (arith, h, e))
    ]

-- What a proof that is accepted for a header proves over the set of the header's epoch.
pub record Certified (c : Crypto) (header : BlockHeader) (proof : CommitProof)
    (snap : ValidatorSnapshot) : Type 0 where
  pub height_eq : proof.height ≡ header.height
  pub block_eq : proof.block_hash ≡ header_hash c header
  pub voters : Map ℕ (Unit {0})
  pub signed : (id : ℕ) → is_voter voters id ≡ true → IsPrecommitOf c proof snap id
  pub positive : 0 < full_power snap.validators
  pub two_thirds : full_power snap.validators * 2 ≤ power_of (is_voter voters) snap.validators * 3

check_proof-Certified :
    (c : Crypto) (header : BlockHeader) (proof : CommitProof) (snap : ValidatorSnapshot)
    → IsBounded snap
    → check_proof c header proof snap ≡ ok tt
    → Certified c header proof snap
unfolding check_proof has_two_thirds_majority
check_proof-Certified c header proof snap b h =
    elim (Result-cases (check_precommits c proof snap proof.precommits ([], 0))) [
      | inr (x, e) ↦ ground (arith, h, e)
      | inl (p, e) ↦
          let w =
            check_precommits-IsProgress c proof snap proof.precommits ([], 0) p b.distinct
              (λ i v at. (i, at)) start e in
          let total : proof.total_power ≡ snap.total_power =
            ground (arith, h, e, ==_iff proof.total_power snap.total_power) in
          let signed : proof.signed_power ≡ p.1 =
            ground (arith, h, e, ==_iff p.1 proof.signed_power) in
          let m =
            majority_numbers proof.total_power (power_of (is_voter p.0) snap.validators)
              (full_power snap.validators) proof.signed_power (total ∙ b.total_eq)
              (signed ∙ w.counted) (power_of-le (is_voter p.0) snap.validators) b.fits
              (ground (arith, h, e)) in
          record {
            height_eq = ground (arith, h, e, ==_iff proof.height header.height);
            block_eq = ground (arith, h, e, ==_iff proof.block_hash (header_hash c header));
            voters = p.0;
            signed = w.signed;
            positive = m.0;
            two_thirds = m.1;
          }
    ]
  where
    start : IsProgress c proof snap ([], 0)
    start = record {
      counted = ground (arith, weigh-none (Unit {0}) (λ v. v.voting_power) snap.validators);
      signed = λ id q. ground (arith, q, lookup-empty {V = Unit {0}} id);
    }

accepted_proof :
    (c : Crypto) (header : BlockHeader) (proof : CommitProof) (s : State) (epoch : ℕ)
    (snap : ValidatorSnapshot)
    → header.height ≢ 0
    → get_snapshot epoch s ≡ ok (some snap)
    → validate_commit_proof c header (some proof) s epoch ≡ ok tt
    → check_proof c header proof snap ≡ ok tt
unfolding validate_commit_proof
accepted_proof c header proof s epoch snap hz hs h = ground (arith, hz, hs, h)

-- Let the state keep for the epoch a snapshot whose ids are distinct, whose total is the sum of
-- its powers, and three times whose power fits a uint64. A commit proof that is accepted for a
-- header other than the genesis header is for that header's height and hash, and holds precommits
-- for them signed by distinct validators of the snapshot who have together at least two thirds of
-- its power, which is not zero.
pub validate_commit_proof-Certified :
    (c : Crypto) (header : BlockHeader) (proof : CommitProof) (s : State) (epoch : ℕ)
    (snap : ValidatorSnapshot)
    → header.height ≢ 0
    → get_snapshot epoch s ≡ ok (some snap)
    → IsBounded snap
    → validate_commit_proof c header (some proof) s epoch ≡ ok tt
    → Certified c header proof snap
validate_commit_proof-Certified c header proof s epoch snap hz hs b h =
    check_proof-Certified c header proof snap b (accepted_proof c header proof s epoch snap hz hs h)

-- Let two commit proofs be accepted for two headers other than the genesis header, each in a
-- state that keeps the same snapshot for the epoch, whose ids are distinct, whose total is the
-- sum of its powers, and three times whose power fits a uint64. Some validator of the snapshot
-- signed a precommit of each proof: for two blocks of one height, it is one that signed both.
pub validate_commit_proof-share_signer :
    (c : Crypto) (header header' : BlockHeader) (proof proof' : CommitProof) (s s' : State)
    (epoch : ℕ) (snap : ValidatorSnapshot)
    → header.height ≢ 0
    → header'.height ≢ 0
    → get_snapshot epoch s ≡ ok (some snap)
    → get_snapshot epoch s' ≡ ok (some snap)
    → IsBounded snap
    → validate_commit_proof c header (some proof) s epoch ≡ ok tt
    → validate_commit_proof c header' (some proof') s' epoch ≡ ok tt
    → (id : ℕ) × IsPrecommitOf c proof snap id × IsPrecommitOf c proof' snap id
validate_commit_proof-share_signer c header header' proof proof' s s' epoch snap hz hz' hs hs' b h
      h' =
    let k = validate_commit_proof-Certified c header proof s epoch snap hz hs b h in
    let k' = validate_commit_proof-Certified c header' proof' s' epoch snap hz' hs' b h' in
    let o = power_of-overlap (is_voter k.voters) (is_voter k'.voters) snap.validators in
    let v =
      positive-voter (λ id. is_voter k.voters id && is_voter k'.voters id) snap.validators
        (ground (arith, o, k.positive, k.two_thirds, k'.two_thirds)) in
    (v.0, k.signed v.0 (ground (arith, v.1)), k'.signed v.0 (ground (arith, v.1)))
