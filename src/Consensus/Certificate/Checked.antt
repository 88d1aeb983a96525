-- ===== src/Consensus/Certificate/Checked.antt =====
-- validateCommitProof's loop over votes that are all in order.
use dsn.Prelude.{
  ℕ, ◌+◌, ◌≡◌, refl, ap, ◌∙◌, List, [], ◌∷◌, none, some, true, false, ◌==◌, ltb, wrap64, arith, All,
}
use dsn.Prelude.Map.{Map, lookup, insert, nat_eq, lookup-insert}
use dsn.Prelude.Sort.{IsPairwise, total}
use dsn.Error.{ok}
use dsn.Types.Vote.{Vote, Crypto, verify_vote, validate_vote, precommit}
use dsn.Types.Commit.{CommitProof}
use dsn.Staking.Validator.{Validator}
use dsn.Consensus.Snapshot.{ValidatorSnapshot, build_indexes, validator_by_id}
use dsn.Consensus.Certificate.{
  Progress, check_precommit, check_precommits, is_sorted, is_sorted_after, vote_precedes,
}

-- A vote that a round accepts, whatever was seen before of others.
pub record IsInOrder (c : Crypto) (height block_hash : ℕ) (snap : ValidatorSnapshot) (vote : Vote)
    : Type 0 where
  pub valid : validate_vote vote ≡ ok tt
  pub type_eq : vote.vote_type ≡ precommit
  pub height_eq : vote.height ≡ height
  pub block_eq : vote.block_hash ≡ block_hash
  pub member : Validator
  pub is_member : lookup vote.validator (build_indexes [] snap.validators) ≡ some member
  pub is_signed : verify_vote c vote member.public_key ≡ true

-- The power that a vote adds.
unfoldable pub vote_power : ValidatorSnapshot → Vote → ℕ
unfolding build_indexes
vote_power snap vote = elim (lookup vote.validator (build_indexes [] snap.validators)) [
  | none ↦ 0
  | some v ↦ v.voting_power
]

abbrev pub Differ : Vote → Vote → Type 0
Differ v w = (v.validator == w.validator) ≡ false

module _ (c : Crypto) (proof : CommitProof) (snap : ValidatorSnapshot) where
  check_precommit_in_order :
      (vote : Vote) (seen : Map ℕ (Unit {0})) (power : ℕ)
      → IsInOrder c proof.height proof.block_hash snap vote
      → lookup vote.validator seen ≡ none
      → check_precommit c proof snap vote (seen, power)
        ≡ ok (insert vote.validator tt seen, wrap64 (power + vote_power snap vote))
  unfolding check_precommit validator_by_id vote_power
  check_precommit_in_order vote seen power w h =
      ground (arith, w.valid, w.type_eq, w.height_eq, w.block_eq, w.is_member, w.is_signed, h)

  -- Votes in order, of validators that differ and were not seen, are all counted.
  pub check_precommits_in_order :
      (vs : List Vote) (seen : Map ℕ (Unit {0})) (power : ℕ)
      → All (IsInOrder c proof.height proof.block_hash snap) vs
      → IsPairwise Differ vs
      → All (λ v. lookup v.validator seen ≡ none) vs
      → (p : Progress) × (check_precommits c proof snap vs (seen, wrap64 power) ≡ ok p)
        × (p.1 ≡ wrap64 (power + total (vote_power snap) vs))
  unfolding check_precommits
  check_precommits_in_order [] seen power h d n = ((seen, wrap64 power), refl, omega arith)
  check_precommits_in_order (v ∷ vs) seen power (h, hs) (d, ds) (n, ns) =
      let once : wrap64 (wrap64 power + vote_power snap v) ≡ wrap64 (power + vote_power snap v) =
        omega arith in
      let first =
        check_precommit_in_order v seen (wrap64 power) h n
        ∙ ap (λ x. ok (insert v.validator tt seen, x)) once in
      let (p, e, q) =
        check_precommits_in_order vs (insert v.validator tt seen) (power + vote_power snap v) hs ds
          (unseen vs d ns) in
      (p, rw first e, omega (arith, q))
    where
      unseen :
          (ws : List Vote)
          → All (Differ v) ws
          → All (λ w. lookup w.validator seen ≡ none) ws
          → All (λ w. lookup w.validator (insert v.validator tt seen) ≡ none) ws
      unseen [] a b = tt
      unseen (w ∷ ws) (a, more) (b, bs) =
          (ground (arith, a, b, lookup-insert v.validator w.validator tt seen), unseen ws more bs)

ordered_after :
    (prev : ℕ) (vs : List Vote)
    → All (λ w. ltb w.validator prev ≡ false) vs
    → IsPairwise (λ v w. vote_precedes w v ≡ false) vs
    → is_sorted_after prev vs ≡ true
unfolding is_sorted_after
ordered_after prev [] a h = refl
ordered_after prev (v ∷ vs) (a, rest) (h, hs) = ground (arith, a, ordered_after v.validator vs h hs)

pub ordered-is_sorted :
    (vs : List Vote) → IsPairwise (λ v w. vote_precedes w v ≡ false) vs → is_sorted vs ≡ true
unfolding is_sorted
ordered-is_sorted [] h = refl
ordered-is_sorted (v ∷ vs) (h, hs) = ordered_after v.validator vs h hs
