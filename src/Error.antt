-- ===== src/Error.antt =====
-- The errors that the modelled functions return, and Go's (value, error) pair. An error that the
-- code builds by fmt.Errorf with %w is the sentinel that it wraps; one that wraps nothing has a
-- constructor of its own.
use dsn.Prelude.{Bool, true, false, ◌≡◌, refl, ◌⊎◌, inl, inr}

pub data Error : Type 0 where
  -- io
  eof unexpected_eof : Error
  -- types/errors.go
  invalid_address amount_overflow amount_underflow invalid_signature nonce_mismatch : Error
  max_fee_exceeded invalid_timestamp invalid_encoding payload_too_large : Error
  signature_too_long empty_signature : Error
  gas_limit_exceeded contract_size_exceeded invalid_contract_id : Error
  -- types/vote.go, types/commit.go
  invalid_vote_type empty_precommits power_exceeds_total insufficient_power : Error
  -- types/evidence.go, consensus/slashing.go
  evidence_type_mismatch evidence_validator_mismatch evidence_height_mismatch : Error
  evidence_round_mismatch evidence_same_block evidence_zero_height empty_reason : Error
  invalid_evidence_type duplicate_evidence unsupported_evidence not_slashable : Error
  -- state
  account_not_found invalid_snapshot insufficient_balance : Error
  nil_message sender_mismatch invalid_pub_key commission_too_high : Error
  -- staking/validator.go
  insufficient_stake validator_exists validator_not_found invalid_transition : Error
  validator_not_pending validator_not_active validator_not_jailed : Error
  validator_not_unstaking cannot_bond cannot_slash_removed slash_percent_too_high : Error
  epoch_mismatch zero_setting : Error
  -- consensus/voting.go
  no_precommit_majority vote_height_mismatch vote_round_mismatch vote_block_mismatch
        duplicate_vote :
      Error
  -- mempool
  mempool_full already_in_pool pool_insufficient_stake : Error
  -- consensus/block_validator.go
  wrong_height wrong_previous_hash wrong_proposer invalid_block_signature : Error
  wrong_validator_root state_root_mismatch tx_root_mismatch fee_summary_mismatch : Error
  wrong_epoch no_snapshot events_root_mismatch insufficient_gas_balance : Error
  invalid_commit_proof wrong_validator_set_hash : Error
  -- a run-time panic: a slice bound out of range
  panic : Error

pub data Result {ℓ} (A : Type ℓ) : Type ℓ where
  ok : A → Result A
  err : Error → Result A

infixl 5 ◌>>=◌ ◌>>◌
abbrev pub ◌>>=◌ {ℓ μ} : {T : Type ℓ} {U : Type μ} → Result T → (T → Result U) → Result U
err x >>= next = err x
ok t >>= next = next t

-- A check, and what follows it.
abbrev pub ◌>>◌ {μ} : {U : Type μ} → Result (Unit {0}) → Result U → Result U
err x >> rest = err x
ok _ >> rest = rest

-- `if bad { return err }`
abbrev pub fail_if : Bool → Error → Result (Unit {0})
fail_if true e = err e
fail_if false e = ok tt

pub Result-cases {ℓ} :
    {T : Type ℓ} (r : Result T) → ((t : T) × (r ≡ ok t)) ⊎ ((x : Error) × (r ≡ err x))
Result-cases (err x) = inr (x, refl)
Result-cases (ok t) = inl (t, refl)

-- A check that passes before another: both do.
pub >>-eq_ok : (a b : Result (Unit {0})) → (a >> b) ≡ ok tt → (a ≡ ok tt) × (b ≡ ok tt)
>>-eq_ok (ok _) b h = (refl, h)
>>-eq_ok (err x) b h = cc
