-- ===== src/Consensus/Proposer/Fair.antt =====
-- Each validator proposes for as many of the heights of a round as it has power.
use dsn.Prelude.{
  ℕ, ◌+◌, ◌%◌, ◌^◌, ◌<◌, ◌≤◌, ◌≡◌, refl, List, [], ◌∷◌, ◌++◌, wrap64, arith, false, ap, ◌∙◌,
}
use dsn.Error.{ok}
use dsn.Staking.Validator.{Validator}
use dsn.Consensus.Snapshot.Power.{full_power}
use dsn.Consensus.Proposer.{add_powers, select_at, weighted_proposer_at_height, is_empty}

pub add_powers-full_power :
    (sum : ℕ) (vs : List Validator)
    → sum + full_power vs < 2 ^ 64
    → add_powers sum vs ≡ sum + full_power vs
unfolding add_powers full_power
add_powers-full_power sum [] h = ground arith
add_powers-full_power sum (v ∷ vs) h =
    ground (arith, add_powers-full_power (wrap64 (sum + v.voting_power)) vs)

full_power-append : (vs ws : List Validator) → full_power (vs ++ ws) ≡ full_power vs + full_power ws
unfolding full_power
full_power-append [] ws = omega arith
full_power-append (v ∷ vs) ws = ground (arith, full_power-append vs ws)

is_empty-append :
    (pre : List Validator) (v : Validator) (post : List Validator)
    → is_empty (pre ++ v ∷ post) ≡ false
is_empty-append [] v post = refl
is_empty-append (w ∷ pre) v post = refl

select_at_lem :
    (offset total cumulative last : ℕ) (pre : List Validator) (v : Validator)
    (post : List Validator)
    → cumulative + full_power (pre ++ v ∷ post) ≡ total
    → total < 2 ^ 64
    → cumulative + full_power pre ≤ offset
    → offset < cumulative + full_power pre + v.voting_power
    → select_at offset total cumulative last (pre ++ v ∷ post) ≡ v.consensus_id
unfolding select_at full_power
select_at_lem offset total cumulative last [] v post ht hs hl hu = ground arith
select_at_lem offset total cumulative last (w ∷ pre) v post ht hs hl hu =
    let small : wrap64 (cumulative + w.voting_power) ≡ cumulative + w.voting_power =
      ground (arith, ht, hs) in
    ground (
      arith,
      small,
      is_empty-append pre v post,
      select_at_lem offset total (wrap64 (cumulative + w.voting_power)) w.consensus_id pre v post
          (ground (arith, small, ht)) hs (ground (arith, small, hl)) (ground (arith, small, hu)),
      hl,
    )

weighted_select :
    (height : ℕ) (vs : List Validator)
    → 0 < full_power vs
    → full_power vs < 2 ^ 64
    → (last : ℕ) × (weighted_proposer_at_height height vs
        ≡ ok (select_at (height % full_power vs) (full_power vs) 0 last vs))
unfolding weighted_proposer_at_height
weighted_select height [] p h = unfold full_power in ground (arith, p)
weighted_select height (v ∷ vs) p h =
    (v.consensus_id, ground (arith, p, add_powers-full_power 0 (v ∷ vs) (omega (arith, h))))

-- Let the sum of the powers fit a uint64. At a height that, modulo that sum, lies between the
-- power of the validators before one in the list and that power with its own, that validator
-- proposes: each validator has as many places of a round as it has power.
pub weighted_proposer_place :
    (height : ℕ) (pre : List Validator) (v : Validator) (post : List Validator)
    → full_power (pre ++ v ∷ post) < 2 ^ 64
    → full_power pre ≤ height % full_power (pre ++ v ∷ post)
    → height % full_power (pre ++ v ∷ post) < full_power pre + v.voting_power
    → weighted_proposer_at_height height (pre ++ v ∷ post) ≡ ok v.consensus_id
weighted_proposer_place height pre v post h l u =
    let all = pre ++ v ∷ post in
    let positive : 0 < full_power all =
      unfold full_power in ground (arith, full_power-append pre (v ∷ post), l, u) in
    let (last, eq) = weighted_select height all positive h in
    eq
    ∙ ap ok (
        select_at_lem (height % full_power all) (full_power all) 0 last pre v post (omega arith) h
          (omega (arith, l)) (omega (arith, u)))
