-- ===== src/Consensus/Certificate/Listed.antt =====
-- The stored precommits of a voting state as a list: who has voted, once each, and what it sums.
use dsn.Prelude.{ℕ, ◌≡◌, sym, ap, ◌∙◌, ◌∷◌, false, ◌==◌, length, wrap64, arith, All, inl, inr}
use mathlib.Core.Path.{subst⁻¹}
use dsn.Prelude.Map.{nat_eq, lookup-absent, insert-absent}
use dsn.Prelude.Sort.{IsPairwise, total, All-mono}
use dsn.Error.{ok, Result-cases}
use dsn.Types.Vote.{Vote, Crypto}
use dsn.Consensus.Snapshot.{ValidatorSnapshot, IsDistinct}
use dsn.Consensus.Snapshot.Power.{is_voter, weigh, weigh-insert, weigh-none}
use dsn.Consensus.Voting.{
  VotingState, new_voting_state, Tally, add_vote, add_prevote, add_precommit, Reached, here,
  prevoted, precommitted,
}
use dsn.Consensus.Voting.Counted.{IsChecked, accepted, add_vote_same, Reached-IsWellCounted}
use dsn.Consensus.Certificate.Checked.{vote_power}

abbrev pub Apart : ℕ × Vote → ℕ × Vote → Type 0
Apart a b = (a.0 == b.0) ≡ false

-- What the entries of a tally are, and what its counter sums.
pub record IsListed (c : Crypto) (start : VotingState) (t : Tally) : Type 0 where
  pub checked : All (λ e. IsChecked c start e.0 e.1) t.1
  pub apart : IsPairwise Apart t.1
  pub power_eq : t.0 ≡ wrap64 (total (λ e. vote_power start.snapshot e.1) t.1)
  pub count_eq : length t.1 ≡ weigh (λ _. 1) (is_voter t.1) start.snapshot.validators

checked_power :
    (c : Crypto) (start : VotingState) (vote : Vote) (k : IsChecked c start vote.validator vote)
    → vote_power start.snapshot vote ≡ k.member.voting_power
unfolding vote_power
checked_power c start vote k = ground (arith, k.is_member)

add_vote-IsListed :
    (c : Crypto) (start : VotingState) (vote : Vote) (t t' : Tally)
    → IsDistinct start.snapshot.validators
    → IsListed c start t
    → add_vote c start vote t ≡ ok t'
    → IsListed c start t'
add_vote-IsListed c start vote t t' d w h =
    let a = accepted c start vote t t' h in
    let votes : t'.1 ≡ (vote.validator, vote) ∷ t.1 =
      a.votes_eq ∙ insert-absent vote.validator vote t.1 a.is_new in
    record {
      checked = subst⁻¹ (All (λ e. IsChecked c start e.0 e.1)) votes (a.is_checked, w.checked);
      apart = subst⁻¹ (IsPairwise Apart) votes (
        All-mono t.1 (λ e q. ground (arith, q)) (lookup-absent vote.validator t.1 a.is_new),
        w.apart,
      );
      power_eq =
          a.power_eq
          ∙ rw votes (ground (arith, w.power_eq, checked_power c start vote a.is_checked));
      count_eq = rw (a.votes_eq) (
          ap length (insert-absent vote.validator vote t.1 a.is_new)
          ∙ ground (
            arith,
            w.count_eq,
            weigh-insert (λ _. 1) vote.validator vote t.1 a.is_checked.member
                start.snapshot.validators a.is_new a.is_checked.is_member d,
          ));
    }

prevote_kept :
    (c : Crypto) (vote : Vote) (vs vs' : VotingState)
    → add_prevote c vote vs ≡ ok vs'
    → (vs'.precommit_power ≡ vs.precommit_power) × (vs'.precommits ≡ vs.precommits)
unfolding add_prevote
prevote_kept c vote vs vs' h =
    elim (Result-cases (add_vote c vs vote (vs.prevote_power, vs.prevotes))) [
      | inr (x, e) ↦ ground (arith, h, e)
      | inl (t, e) ↦ (ground (arith, h, e), ground (arith, h, e))
    ]

precommit_added :
    (c : Crypto) (vote : Vote) (vs vs' : VotingState)
    → add_precommit c vote vs ≡ ok vs'
    → add_vote c vs vote (vs.precommit_power, vs.precommits)
      ≡ ok (vs'.precommit_power, vs'.precommits)
unfolding add_precommit
precommit_added c vote vs vs' h =
    elim (Result-cases (add_vote c vs vote (vs.precommit_power, vs.precommits))) [
      | inr (x, e) ↦ ground (arith, h, e)
      | inl (t, e) ↦ ground (arith, h, e)
    ]

pub Reached-IsListed :
    (c : Crypto) (height round block_hash : ℕ) (s : ValidatorSnapshot) (vs : VotingState)
    → IsDistinct s.validators
    → Reached c (new_voting_state height round block_hash s) vs
    → IsListed c (new_voting_state height round block_hash s) (vs.precommit_power, vs.precommits)
unfolding new_voting_state
Reached-IsListed c height round block_hash s _ d here = record {
  checked = tt;
  apart = tt;
  power_eq = omega arith;
  count_eq = ground (arith, weigh-none Vote (λ _. 1) s.validators);
}
Reached-IsListed c height round block_hash s _ d (prevoted vote vs vs' r e) =
    let (p, q) = prevote_kept c vote vs vs' e in
    rw (p, q) (Reached-IsListed c height round block_hash s vs d r)
Reached-IsListed c height round block_hash s _ d (precommitted vote vs vs' r e) =
    let start = new_voting_state height round block_hash s in
    let w = Reached-IsWellCounted c height round block_hash s vs d r in
    let t : Tally = (vs.precommit_power, vs.precommits) in
    add_vote-IsListed c start vote t (vs'.precommit_power, vs'.precommits) d
      (Reached-IsListed c height round block_hash s vs d r)
      (sym (add_vote_same c vote start vs t w) ∙ precommit_added c vote vs vs' e)
