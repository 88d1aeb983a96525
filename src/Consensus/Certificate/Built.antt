-- ===== src/Consensus/Certificate/Built.antt =====
-- A majority of valid precommits makes a commit proof that validateCommitProof accepts.
use dsn.Prelude.{
  ℕ, ◌+◌, ◌≤◌, ◌≡◌, refl, ap, ◌∙◌, List, [], ◌∷◌, none, some, true, false, map, length, arith,
  ==_iff, All,
}
use mathlib.Core.Path.{subst⁻¹}
use dsn.Prelude.Map.{Map, lookup, nat_eq, lookup-empty}
use dsn.Prelude.Sort.{
  IsPairwise, total, sort, All-sort, sort-IsPairwise, sort-IsOrdered, total-sort,
}
use dsn.Error.{ok}
use dsn.Types.Vote.{Vote, Crypto, validate_vote, precommit}
use dsn.Types.Commit.{CommitProof, has_two_thirds_majority}
use dsn.Types.Block.{BlockHeader, header_hash}
use dsn.State.Memory.{State}
use dsn.Consensus.Snapshot.{ValidatorSnapshot, build_indexes, IsDistinct}
use dsn.Consensus.Snapshot.Stored.{get_snapshot}
use dsn.Consensus.Snapshot.Power.{is_voter, weigh-one_le}
use dsn.Consensus.Voting.{
  VotingState, new_voting_state, Tally, has_precommit_majority, has_majority, Reached,
}
use dsn.Consensus.Voting.Counted.{IsChecked, Reached-IsWellCounted}
use dsn.Consensus.Certificate.{
  Progress, build_commit_proof, check_precommits, check_proof, is_sorted, validate_commit_proof,
  vote_precedes,
}
use dsn.Consensus.Certificate.Listed.{Apart, IsListed, Reached-IsListed}
use dsn.Consensus.Certificate.Checked.{
  IsInOrder, vote_power, Differ, check_precommits_in_order, ordered-is_sorted,
}

-- A stored vote that may stand in a commit proof.
abbrev pub IsValidPrecommit : ℕ × Vote → Type 0
IsValidPrecommit e = (validate_vote e.1 ≡ ok tt) × (e.1.vote_type ≡ precommit)

module _ (c : Crypto) (start : VotingState) where
  in_order :
      (m : Map ℕ Vote)
      → All (λ e. IsChecked c start e.0 e.1) m
      → All IsValidPrecommit m
      → All (IsInOrder c start.height start.block_hash start.snapshot) (map (λ e. e.1) m)
  in_order [] h g = tt
  in_order ((k, v) ∷ m) (h, hs) ((valid, type_eq), gs) = (
    record {
      valid = valid;
      type_eq = type_eq;
      height_eq = h.height_eq;
      block_eq = h.block_eq;
      member = h.member;
      is_member =
          ap (λ i. lookup i (build_indexes [] start.snapshot.validators)) h.validator_eq
          ∙ h.is_member;
      is_signed = h.is_signed;
    },
    in_order m hs gs,
  )

  Differ-head :
      (k : ℕ) (v : Vote) (m : Map ℕ Vote)
      → IsChecked c start k v
      → All (λ e. IsChecked c start e.0 e.1) m
      → All (Apart (k, v)) m
      → All (Differ v) (map (λ e. e.1) m)
  Differ-head k v [] h hs g = tt
  Differ-head k v ((j, w) ∷ m) h (h', hs) (g, gs) =
      (ground (arith, g, h.validator_eq, h'.validator_eq), Differ-head k v m h hs gs)

  differ :
      (m : Map ℕ Vote)
      → All (λ e. IsChecked c start e.0 e.1) m
      → IsPairwise Apart m
      → IsPairwise Differ (map (λ e. e.1) m)
  differ [] h g = tt
  differ ((k, v) ∷ m) (h, hs) (g, gs) = (Differ-head k v m h hs g, differ m hs gs)

total-values : (f : Vote → ℕ) (m : Map ℕ Vote) → total f (map (λ e. e.1) m) ≡ total (λ e. f e.1) m
total-values f [] = refl
total-values f (e ∷ m) = ap (λ t. f e.1 + t) (total-values f m)

length-values : (m : Map ℕ Vote) → length (map (λ e. e.1) m) ≡ length m
length-values [] = refl
length-values (e ∷ m) = omega (arith, length-values m)

length-total : (vs : List Vote) → total (λ _. 1) vs ≡ length vs
length-total [] = refl
length-total (v ∷ vs) = omega (arith, length-total vs)

passes :
    (c : Crypto) (header : BlockHeader) (proof : CommitProof) (snap : ValidatorSnapshot)
    (p : Progress)
    → proof.set_hash ≡ snap.set_hash
    → proof.height ≡ header.height
    → proof.block_hash ≡ header_hash c header
    → proof.total_power ≡ snap.total_power
    → length proof.precommits ≤ length snap.validators
    → is_sorted proof.precommits ≡ true
    → check_precommits c proof snap proof.precommits ([], 0) ≡ ok p
    → p.1 ≡ proof.signed_power
    → has_two_thirds_majority proof ≡ true
    → check_proof c header proof snap ≡ ok tt
unfolding check_proof
passes c header proof snap p hset hheight hblock htotal hlength hsorted hp hpower hmajority =
    ground (
      arith,
      hlength,
      hsorted,
      hp,
      hmajority,
      (==_iff proof.set_hash snap.set_hash).1 hset,
      (==_iff proof.height header.height).1 hheight,
      (==_iff proof.block_hash (header_hash c header)).1 hblock,
      (==_iff proof.total_power snap.total_power).1 htotal,
      (==_iff p.1 proof.signed_power).1 hpower,
    )

Differ-flip : (v w : Vote) → Differ v w → Differ w v
Differ-flip v w h = ground (arith, h)

vote_precedes_trans :
    (u v w : Vote)
    → vote_precedes v u ≡ false
    → vote_precedes w v ≡ false
    → vote_precedes w u ≡ false
vote_precedes_trans u v w h k = ground (arith, h, k)

vote_precedes-asym : (v w : Vote) → vote_precedes w v ≡ true → vote_precedes v w ≡ false
vote_precedes-asym v w h = ground (arith, h)

length-sort : (vs : List Vote) → length (sort vote_precedes vs) ≡ length vs
length-sort vs = ground (
  arith,
  length-total (sort vote_precedes vs),
  total-sort vote_precedes (λ _. 1) vs,
  length-total vs,
)

-- The checks pass for a proof of the sorted votes of a tally.
listed_passes :
    (c : Crypto) (header : BlockHeader) (start : VotingState) (t : Tally) (proof : CommitProof)
    → IsListed c start t
    → All IsValidPrecommit t.1
    → start.height ≡ header.height
    → start.block_hash ≡ header_hash c header
    → proof.height ≡ start.height
    → proof.block_hash ≡ start.block_hash
    → proof.set_hash ≡ start.snapshot.set_hash
    → proof.total_power ≡ start.snapshot.total_power
    → proof.signed_power ≡ t.0
    → proof.precommits ≡ sort vote_precedes (map (λ e. e.1) t.1)
    → has_two_thirds_majority proof ≡ true
    → check_proof c header proof start.snapshot ≡ ok tt
listed_passes c header start t proof l g hh hb ph pb pset ptotal ppower pvotes m =
    let votes = map (λ e. e.1) t.1 in
    let sorted = sort vote_precedes votes in
    let snap = start.snapshot in
    let ordered = sort-IsOrdered vote_precedes vote_precedes_trans vote_precedes-asym votes in
    let good : All (IsInOrder c proof.height proof.block_hash snap) sorted =
      rw (ph, pb)
        (All-sort vote_precedes (IsInOrder c start.height start.block_hash snap) votes
          (in_order c start t.1 l.checked g)) in
    let apart =
      sort-IsPairwise vote_precedes Differ votes Differ-flip
        (differ c start t.1 l.checked l.apart) in
    let (p, e, q) = check_precommits_in_order c proof snap sorted [] 0 good apart (unseen sorted) in
    let power : p.1 ≡ proof.signed_power = ground (
      arith,
      q,
      ppower,
      l.power_eq,
      total-sort vote_precedes (vote_power snap) votes,
      total-values (vote_power snap) t.1,
    ) in
    let short : length sorted ≤ length snap.validators = ground (
      arith,
      length-sort votes,
      length-values t.1,
      l.count_eq,
      weigh-one_le (is_voter t.1) snap.validators,
    ) in
    passes c header proof snap p pset (ph ∙ hh) (pb ∙ hb) ptotal
      (subst⁻¹ (λ vs. length vs ≤ length snap.validators) pvotes short)
      (subst⁻¹ (λ vs. is_sorted vs ≡ true) pvotes (ordered-is_sorted sorted ordered))
      (subst⁻¹ (λ vs. check_precommits c proof snap vs ([], 0) ≡ ok p) pvotes e) power m
  where
    unseen : (vs : List Vote) → All (λ v. lookup {V = Unit {0}} v.validator [] ≡ none) vs
    unseen [] = tt
    unseen (v ∷ vs) = (lookup-empty v.validator, unseen vs)

found_passes :
    (c : Crypto) (header : BlockHeader) (proof : CommitProof) (snap : ValidatorSnapshot) (s : State)
    (epoch : ℕ)
    → get_snapshot epoch s ≡ ok (some snap)
    → check_proof c header proof snap ≡ ok tt
    → validate_commit_proof c header (some proof) s epoch ≡ ok tt
unfolding validate_commit_proof
found_passes c header proof snap s epoch hs h = ground (arith, hs, h)

-- Let a voting state for a header's height and hash, over a set of distinct ids, accept votes in
-- any order until it has a precommit majority, with a valid precommit in every entry of its
-- precommits. Then BuildCommitProof succeeds, and its proof is accepted for that header in every
-- state that keeps the set's snapshot for the epoch.
pub build_commit_proof-validate :
    (c : Crypto) (header : BlockHeader) (round : ℕ) (snap : ValidatorSnapshot) (vs : VotingState)
    (s : State) (epoch : ℕ)
    → IsDistinct snap.validators
    → Reached c (new_voting_state header.height round (header_hash c header) snap) vs
    → has_precommit_majority vs ≡ true
    → All IsValidPrecommit vs.precommits
    → get_snapshot epoch s ≡ ok (some snap)
    → (proof : CommitProof) × (build_commit_proof vs ≡ ok proof)
      × (validate_commit_proof c header (some proof) s epoch ≡ ok tt)
unfolding build_commit_proof new_voting_state has_precommit_majority has_majority
    has_two_thirds_majority
build_commit_proof-validate c header round snap vs s epoch d r m g hs =
    let start = new_voting_state header.height round (header_hash c header) snap in
    let w = Reached-IsWellCounted c header.height round (header_hash c header) snap vs d r in
    let l = Reached-IsListed c header.height round (header_hash c header) snap vs d r in
    let votes = map (λ e. e.1) vs.precommits in
    let proof : CommitProof = record {
      height = vs.height;
      block_hash = vs.block_hash;
      precommits = sort vote_precedes votes;
      total_power = vs.snapshot.total_power;
      signed_power = vs.precommit_power;
      set_hash = vs.snapshot.set_hash;
    } in
    (
      proof,
      ground (arith, m),
      found_passes c header proof snap s epoch hs (
          listed_passes c header start (vs.precommit_power, vs.precommits) proof l g refl refl
            w.height_kept w.block_kept (ap (λ x. x.set_hash) w.snapshot_kept)
            (ap (λ x. x.total_power) w.snapshot_kept) refl refl m),
    )
