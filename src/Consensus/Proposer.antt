-- ===== src/Consensus/Proposer.antt =====
-- consensus/proposer.go and consensus/leader.go: the choice of a block's proposer, by voting power or in turn.
pub mod Fair
use dsn.Prelude.{
  ℕ, ◌+◌, ◌-◌, ◌%◌, ◌^◌, List, [], ◌∷◌, Option, none, some, Bool, true, false, ltb, leb, ◌==◌, ◌&&◌,
  if◌then◌else◌, wrap64, length, get_elem?,
}
use dsn.Error.{Result, ok, err, panic}
use dsn.Staking.Validator.{Validator}

-- The sum of the powers, from the sum so far.
unfoldable pub add_powers : ℕ → List Validator → ℕ
add_powers sum [] = sum
add_powers sum (v ∷ vs) = add_powers (wrap64 (sum + v.voting_power)) vs

abbrev pub is_empty : List Validator → Bool
is_empty [] = true
is_empty (v ∷ vs) = false

-- The loop, with the power passed so far and the validator passed last, which the fallback after
-- the loop returns.
unfoldable pub select_at : ℕ → ℕ → ℕ → ℕ → List Validator → ℕ
select_at offset total cumulative last [] = last
select_at offset total cumulative last (v ∷ vs) =
    let cumulative' = wrap64 (cumulative + v.voting_power) in
    let rest = select_at offset total cumulative' v.consensus_id vs in
    if ltb offset cumulative'
    then v.consensus_id
    else if is_empty vs && leb (wrap64 (cumulative' + (2 ^ 64 - total))) offset
    then v.consensus_id
    else rest

-- validators[i].ConsensusID, with the run-time panic out of range.
unfoldable pub id_at : List Validator → ℕ → Result ℕ
id_at vs i = elim (get_elem? vs i) [ none ↦ err panic | some v ↦ ok v.consensus_id ]

-- leader.go: ProposerAtHeight, which takes turns.
unfoldable pub proposer_at_height : ℕ → List ℕ → Result ℕ
proposer_at_height height vs =
    if length vs == 0
    then err panic
    else elim (get_elem? vs (height % length vs)) [ none ↦ err panic | some v ↦ ok v ]

unfoldable pub weighted_proposer_at_height : ℕ → List Validator → Result ℕ
unfolding add_powers select_at id_at
weighted_proposer_at_height height [] = err panic
weighted_proposer_at_height height (v ∷ vs) =
    let total = add_powers 0 (v ∷ vs) in
    if total == 0
    then id_at (v ∷ vs) (height % length (v ∷ vs))
    else ok (select_at (height % total) total 0 v.consensus_id (v ∷ vs))
