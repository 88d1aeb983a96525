-- ===== src/Staking/Active.antt =====
-- staking/registry.go: GetActiveValidators, with the order that proposers and rewards rely on.
pub mod Order
use dsn.Prelude.{ℕ, zero, suc, ◌+◌, List, [], ◌∷◌, Bool, ltb, ◌==◌, if◌then◌else◌}
use dsn.Prelude.Sort.{sort}
use dsn.Error.{Result, ok, err}
use dsn.Exec.{◌>>=◌, pure, gets}
use dsn.State.Memory.{State, Action}
use dsn.Staking.Validator.{Validator, active}
use dsn.Staking.Registry.{get_validator, get_validator_id_by_seq, validator_count}

-- The body of the loop: a missing id or validator is passed over.
unfoldable pub collect_at : ℕ → State → List Validator → List Validator
collect_at seq s rest = elim (get_validator_id_by_seq seq s).0 [
  | err e ↦ rest
  | ok id ↦ elim (get_validator id s).0 [
    | err e ↦ rest
    | ok v ↦ if v.status == active then v ∷ rest else rest
  ]
]

-- The loop, with the rounds that are left and the next sequence number.
unfoldable pub collect : ℕ → ℕ → State → List Validator
unfolding collect_at
collect zero seq s = []
collect (suc rounds) seq s = collect_at seq s (collect rounds (seq + 1) s)

-- The order of sort.Slice: the greater power first, and of equal powers the smaller id.
abbrev pub precedes : Validator → Validator → Bool
precedes v w =
    if v.voting_power == w.voting_power
    then ltb v.consensus_id w.consensus_id
    else ltb w.voting_power v.voting_power

unfoldable pub get_active_validators : Action (List Validator)
unfolding collect
get_active_validators = do
  count ← validator_count
  vs ← gets (collect count 1)
  pure (sort precedes vs)
