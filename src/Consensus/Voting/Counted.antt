-- ===== src/Consensus/Voting/Counted.antt =====
-- What the tallies of a voting state hold: the power of exactly the validators whose votes were
-- stored, each vote checked.
use dsn.Prelude.{
  ℕ, ◌≡◌, refl, sym, ap, ◌∙◌, [], none, some, true, ◌==◌, wrap64, arith, ==_iff, Bool-cases,
  Option-cases, inl, inr, ◌+◌,
}
use mathlib.Core.Path.{subst⁻¹, subst₂}
use dsn.Prelude.Map.{lookup, insert, nat_eq, lookup-insert, lookup-empty}
use dsn.Error.{ok, Result-cases}
use dsn.Types.Vote.{Vote, Crypto, verify_vote}
use dsn.Staking.Validator.{Validator}
use dsn.Consensus.Snapshot.{ValidatorSnapshot, build_indexes, validator_by_id, IsDistinct}
use dsn.Consensus.Snapshot.Power.{is_voter, power_of, weigh-insert, weigh-none}
use dsn.Consensus.Voting.{
  VotingState, new_voting_state, Tally, add_vote, add_prevote, add_precommit, Reached, here,
  prevoted, precommitted,
}

-- A vote for the block, by a validator of the set, whose signature that validator's key accepts.
pub record IsChecked (c : Crypto) (vs : VotingState) (id : ℕ) (vote : Vote) : Type 0 where
  pub height_eq : vote.height ≡ vs.height
  pub round_eq : vote.round ≡ vs.round
  pub block_eq : vote.block_hash ≡ vs.block_hash
  pub validator_eq : vote.validator ≡ id
  pub member : Validator
  pub is_member : lookup id (build_indexes [] vs.snapshot.validators) ≡ some member
  pub is_signed : verify_vote c vote member.public_key ≡ true

pub record IsTallied (c : Crypto) (vs : VotingState) (t : Tally) : Type 0 where
  pub counted : t.0 ≡ wrap64 (power_of (is_voter t.1) vs.snapshot.validators)
  pub checked : (id : ℕ) (vote : Vote) → lookup id t.1 ≡ some vote → IsChecked c vs id vote

-- What an accepted vote satisfied.
pub record IsAccepted (c : Crypto) (vs : VotingState) (vote : Vote) (t t' : Tally) : Type 0 where
  pub is_checked : IsChecked c vs vote.validator vote
  pub is_new : lookup vote.validator t.1 ≡ none
  pub power_eq : t'.0 ≡ wrap64 (t.0 + is_checked.member.voting_power)
  pub votes_eq : t'.1 ≡ insert vote.validator vote t.1

pub accepted :
    (c : Crypto) (vs : VotingState) (vote : Vote) (t t' : Tally)
    → add_vote c vs vote t ≡ ok t'
    → IsAccepted c vs vote t t'
unfolding add_vote validator_by_id
accepted c vs vote (power, votes) (power', votes') h =
    elim (Option-cases (lookup vote.validator (build_indexes [] vs.snapshot.validators))) [
      | inl e ↦ ground (arith, h, e)
      | inr (v, e) ↦ record {
        is_checked = record {
          height_eq = ground (arith, h, e, ==_iff vote.height vs.height);
          round_eq = ground (arith, h, e, ==_iff vote.round vs.round);
          block_eq = ground (arith, h, e, ==_iff vote.block_hash vs.block_hash);
          validator_eq = refl;
          member = v;
          is_member = e;
          is_signed = ground (arith, h, e);
        };
        is_new = ground (arith, h, e);
        power_eq = ground (arith, h, e);
        votes_eq = ground (arith, h, e);
      }
    ]

-- An accepted vote keeps its tally right.
add_vote-IsTallied :
    (c : Crypto) (vs : VotingState) (vote : Vote) (t t' : Tally)
    → IsDistinct vs.snapshot.validators
    → IsTallied c vs t
    → add_vote c vs vote t ≡ ok t'
    → IsTallied c vs t'
add_vote-IsTallied c vs vote t t' d w h =
    let a = accepted c vs vote t t' h in
    record {
      counted =
          a.power_eq
          ∙ ground (
            arith,
            w.counted,
            weigh-insert (λ v. v.voting_power) vote.validator vote t.1 a.is_checked.member
                vs.snapshot.validators a.is_new a.is_checked.is_member d,
          )
          ∙ ap (λ m. wrap64 (power_of (is_voter m) vs.snapshot.validators)) (sym a.votes_eq);
      checked = λ id v e. checked a id v e;
    }
  where
    checked :
        IsAccepted c vs vote t t'
        → (id : ℕ) (v : Vote) → lookup id t'.1 ≡ some v
        → IsChecked c vs id v
    checked a id v e = elim (Bool-cases (vote.validator == id)) [
      | inl q ↦
          let iv : vote ≡ v =
            ground (arith, lookup-insert vote.validator id vote t.1, a.votes_eq, e, q) in
          let ii : vote.validator ≡ id = (==_iff vote.validator id).0 q in
          subst₂ (IsChecked c vs) ii iv a.is_checked
      | inr q ↦
          w.checked id v
            (ground (arith, lookup-insert vote.validator id vote t.1, a.votes_eq, e, q))
    ]

-- What holds of every state that accepted votes lead to.
pub record IsWellCounted (c : Crypto) (start vs : VotingState) : Type 0 where
  pub height_kept : vs.height ≡ start.height
  pub round_kept : vs.round ≡ start.round
  pub block_kept : vs.block_hash ≡ start.block_hash
  pub snapshot_kept : vs.snapshot ≡ start.snapshot
  pub prevotes_tallied : IsTallied c start (vs.prevote_power, vs.prevotes)
  pub precommits_tallied : IsTallied c start (vs.precommit_power, vs.precommits)

-- A vote is judged by the block and the set alone.
pub add_vote_same :
    (c : Crypto) (vote : Vote) (start vs : VotingState) (t : Tally)
    → IsWellCounted c start vs
    → add_vote c vs vote t ≡ add_vote c start vote t
unfolding add_vote
add_vote_same c vote start vs (power, votes) w =
    rw (w.height_kept, w.round_kept, w.block_kept, w.snapshot_kept)

add_prevote-IsWellCounted :
    (c : Crypto) (vote : Vote) (start vs vs' : VotingState)
    → IsDistinct start.snapshot.validators
    → IsWellCounted c start vs
    → add_prevote c vote vs ≡ ok vs'
    → IsWellCounted c start vs'
unfolding add_prevote
add_prevote-IsWellCounted c vote start vs vs' d w h =
    elim (Result-cases (add_vote c vs vote (vs.prevote_power, vs.prevotes))) [
      | inl (t, e) ↦
          let same : vs' ≡ record vs { prevote_power = t.0; prevotes = t.1 } =
            ground (arith, h, e) in
          let kept : add_vote c start vote (vs.prevote_power, vs.prevotes) ≡ ok t =
            sym (add_vote_same c vote start vs (vs.prevote_power, vs.prevotes) w) ∙ e in
          subst⁻¹ (IsWellCounted c start) same (record {
            height_kept = w.height_kept;
            round_kept = w.round_kept;
            block_kept = w.block_kept;
            snapshot_kept = w.snapshot_kept;
            prevotes_tallied =
                add_vote-IsTallied c start vote (vs.prevote_power, vs.prevotes) t d
                  w.prevotes_tallied kept;
            precommits_tallied = w.precommits_tallied;
          })
      | inr (x, e) ↦ ground (arith, h, e)
    ]

add_precommit-IsWellCounted :
    (c : Crypto) (vote : Vote) (start vs vs' : VotingState)
    → IsDistinct start.snapshot.validators
    → IsWellCounted c start vs
    → add_precommit c vote vs ≡ ok vs'
    → IsWellCounted c start vs'
unfolding add_precommit
add_precommit-IsWellCounted c vote start vs vs' d w h =
    elim (Result-cases (add_vote c vs vote (vs.precommit_power, vs.precommits))) [
      | inl (t, e) ↦
          let same : vs' ≡ record vs { precommit_power = t.0; precommits = t.1 } =
            ground (arith, h, e) in
          let kept : add_vote c start vote (vs.precommit_power, vs.precommits) ≡ ok t =
            sym (add_vote_same c vote start vs (vs.precommit_power, vs.precommits) w) ∙ e in
          subst⁻¹ (IsWellCounted c start) same (record {
            height_kept = w.height_kept;
            round_kept = w.round_kept;
            block_kept = w.block_kept;
            snapshot_kept = w.snapshot_kept;
            precommits_tallied =
                add_vote-IsTallied c start vote (vs.precommit_power, vs.precommits) t d
                  w.precommits_tallied kept;
            prevotes_tallied = w.prevotes_tallied;
          })
      | inr (x, e) ↦ ground (arith, h, e)
    ]

new-IsWellCounted :
    (c : Crypto) (height round block_hash : ℕ) (s : ValidatorSnapshot)
    → IsWellCounted c
        (new_voting_state height round block_hash s)
        (new_voting_state height round block_hash s)
unfolding new_voting_state
new-IsWellCounted c height round block_hash s = record {
  height_kept = refl;
  round_kept = refl;
  block_kept = refl;
  snapshot_kept = refl;
  prevotes_tallied = empty;
  precommits_tallied = empty;
}
  where
    empty : IsTallied c (new_voting_state height round block_hash s) (0, [])
    empty = record {
      counted = ground (arith, weigh-none Vote (λ v. v.voting_power) s.validators);
      checked = λ id v e. ground (arith, lookup-empty {V = Vote} id, e);
    }

-- Over a set of distinct ids, whatever prevotes and precommits a new voting state accepts in
-- whatever order, it keeps its height, round, block and set, and each of its two tallies is,
-- modulo 2 ^ 64, the power of exactly the validators whose votes it stores; each stored vote is
-- for that height, round and block and carries a signature that the key of its validator
-- accepts.
pub Reached-IsWellCounted :
    (c : Crypto) (height round block_hash : ℕ) (s : ValidatorSnapshot) (vs : VotingState)
    → IsDistinct s.validators
    → Reached c (new_voting_state height round block_hash s) vs
    → IsWellCounted c (new_voting_state height round block_hash s) vs
unfolding new_voting_state
Reached-IsWellCounted c height round block_hash s _ d here =
    new-IsWellCounted c height round block_hash s
Reached-IsWellCounted c height round block_hash s _ d (prevoted vote vs vs' r e) =
    add_prevote-IsWellCounted c vote (new_voting_state height round block_hash s) vs vs' d
      (Reached-IsWellCounted c height round block_hash s vs d r) e
Reached-IsWellCounted c height round block_hash s _ d (precommitted vote vs vs' r e) =
    add_precommit-IsWellCounted c vote (new_voting_state height round block_hash s) vs vs' d
      (Reached-IsWellCounted c height round block_hash s vs d r) e
