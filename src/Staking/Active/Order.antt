-- ===== src/Staking/Active/Order.antt =====
-- The active validators come in order, and they are active.
use dsn.Prelude.{ℕ, ◌≡◌, List, arith, inl, inr}
use dsn.Prelude.Sort
use dsn.Error.{ok, Result-cases}
use dsn.State.Memory.{State}
use dsn.State.Payload.{counter}
use dsn.Staking.Validator.{Validator, active}
use dsn.Staking.Registry.{get_validator, validator_count}
use dsn.Staking.Active.{precedes, get_active_validators}

-- No validator of the tail precedes the head.
abbrev pub IsOrdered : List Validator → Type 0
IsOrdered = Sort.IsOrdered precedes

-- A stored validator that is active.
abbrev pub IsActive : State → Validator → Type 0
IsActive s v = (v.status ≡ active) × ((id : ℕ) × ((get_validator id s).0 ≡ ok v))

-- Reading the active validators changes nothing.
pub active-state :
    (s t : State) (vs : List Validator) → get_active_validators s ≡ (ok vs, t) → t ≡ s
unfolding get_active_validators
active-state s t vs h = elim (Result-cases (validator_count s).0) [
  | inr (x, e) ↦ ground (arith, h, e)
  | inl (count, e) ↦
      let same : s ≡ (validator_count s).1 = unfold validator_count counter in ground arith in
      ground (arith, h, e, same)
]
