-- ===== src/Consensus/Snapshot.antt =====
-- staking/snapshot.go: the frozen validator set that votes are counted against, and its lookup.
pub mod Power
pub mod Codec
pub mod Stored
use dsn.Prelude.{
  ℕ, ◌+◌, ◌≡◌, List, [], ◌∷◌, Option, none, some, Bool, true, false, if◌then◌else◌, ◌==◌, ◌||◌,
}
use dsn.Prelude.Map.{Map, lookup, insert, nat_eq}
use dsn.Error.{Result, ok, err, validator_not_found}
use dsn.Staking.Validator.{Validator}

pub record ValidatorSnapshot : Type 0 where
  pub epoch : ℕ
  pub validators : List Validator
  pub total_power : ℕ
  pub set_hash : ℕ

-- buildIndexes: the loop, from the map so far. A later entry with the same ID replaces an earlier.
unfoldable pub build_indexes : Map ℕ Validator → List Validator → Map ℕ Validator
build_indexes m [] = m
build_indexes m (v ∷ vs) = build_indexes (insert v.consensus_id v m) vs

unfoldable pub validator_by_id : ValidatorSnapshot → ℕ → Result Validator
unfolding build_indexes
validator_by_id s id = elim (lookup id (build_indexes [] s.validators)) [
  | none ↦ err validator_not_found
  | some v ↦ ok v
]

unfoldable validator_by_pub_key : List Validator → ℕ → Result Validator
validator_by_pub_key [] pub_key = err validator_not_found
validator_by_pub_key (v ∷ vs) pub_key =
    if v.public_key == pub_key then ok v else validator_by_pub_key vs pub_key

unfoldable get_validator_power : ValidatorSnapshot → ℕ → Result ℕ
unfolding validator_by_id
get_validator_power s id = elim (validator_by_id s id) [ err e ↦ err e | ok v ↦ ok v.voting_power ]

unfoldable pub has_validator : ValidatorSnapshot → ℕ → Bool
unfolding build_indexes
has_validator s id = elim (lookup id (build_indexes [] s.validators)) [
  | none ↦ false
  | some _ ↦ true
]

unfoldable pub has_id : ℕ → List Validator → Bool
has_id id [] = false
has_id id (v ∷ vs) = v.consensus_id == id || has_id id vs

-- No consensus ID occurs twice.
unfoldable pub IsDistinct : List Validator → Type 0
unfolding has_id
IsDistinct [] = Unit {0}
IsDistinct (v ∷ vs) = (has_id v.consensus_id vs ≡ false) × IsDistinct vs
