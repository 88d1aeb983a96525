-- ===== src/Staking/Registry/Lifecycle.antt =====
-- The life cycle of a validator: the five operations on the status.
use dsn.Prelude.{ℕ, ◌≡◌, ◌<◌, ◌^◌, refl, arith, true, false, ◌==◌, inl, inr, ◌∙◌, Bool-cases}
use dsn.Error.{
  Error, ok, err, validator_not_pending, validator_not_active, validator_not_jailed,
  invalid_transition,
}
use dsn.State.Memory.{State, Action}
use dsn.Staking.Validator.{
  Validator, IsSizedValidator, pending, active, jailed, unstaking, is_valid_transition,
  allowed_transitions, contains, transition_to,
}
use dsn.Staking.Registry.{
  with_voting_power, update_validator, stake_to_uint64, activate_validator, jail_validator,
  unjail_validator, start_unstake,
}
use dsn.Staking.Registry.Power.{stake_to_uint64-lt}
use dsn.Staking.Registry.Stored.{IsStored, update-IsStored}

pub data StatusOp : Type 0 where
  activate jail start : ℕ → StatusOp
  unjail : StatusOp

pub run : StatusOp → ℕ → Action (Unit {0})
run (activate epoch) id = activate_validator id epoch
run (jail until_epoch) id = jail_validator id until_epoch
run (start unstake_epoch) id = start_unstake id unstake_epoch
run unjail id = unjail_validator id

-- The epoch that an operation writes fits a uint64.
abbrev pub IsSizedOp : StatusOp → Type 0
IsSizedOp (activate epoch) = epoch < 2 ^ 64
IsSizedOp (jail until_epoch) = until_epoch < 2 ^ 64
IsSizedOp (start unstake_epoch) = unstake_epoch < 2 ^ 64
IsSizedOp unjail = Unit

-- The only status that an operation takes a validator from.
abbrev pub origin : StatusOp → ℕ
origin (activate epoch) = pending
origin (jail until_epoch) = active
origin (start unstake_epoch) = active
origin unjail = jailed

-- The error outside that status.
abbrev pub refusal : StatusOp → Error
refusal (activate epoch) = validator_not_pending
refusal (jail until_epoch) = validator_not_active
refusal (start unstake_epoch) = invalid_transition
refusal unjail = validator_not_jailed

-- What an operation makes of a validator: the new status, the epoch that it writes, and the low 64
-- bits of the stake as the power of an active validator.
abbrev pub after : StatusOp → Validator → Validator
after (activate epoch) v = record v {
  status = active;
  activation_epoch = epoch;
  voting_power = stake_to_uint64 v.bonded_stake;
}
after (jail until_epoch) v = record v {
  status = jailed;
  jailed_until = until_epoch;
  voting_power = 0;
}
after (start unstake_epoch) v = record v {
  status = unstaking;
  unstake_epoch = unstake_epoch;
  voting_power = 0;
}
after unjail v = record v {
  status = active;
  jailed_until = 0;
  voting_power = stake_to_uint64 v.bonded_stake;
}

-- How an operation on a stored validator ends: outside the status it starts from it refuses and
-- changes nothing, and in that status it succeeds.
pub data Outcome (id : ℕ) (v : Validator) (s : State) (op : StatusOp) : Type 0 where
  refused : ¬ (v.status ≡ origin op) → run op id s ≡ (err (refusal op), s) → Outcome id v s op
  moved :
      (t : State)
      → v.status ≡ origin op
      → run op id s ≡ (ok tt, t)
      → IsStored id (after op v) t
      → is_valid_transition v.status (after op v).status ≡ true
      → Outcome id v s op

-- The equality test of statuses is right.
status_eq : (a b : ℕ) → (a == b) ≡ true → a ≡ b
status_eq a b h = ground (arith, h)

unstaking_from : (a : ℕ) → is_valid_transition a unstaking ≡ true → a ≡ active
unfolding is_valid_transition allowed_transitions contains
unstaking_from a h = ground (arith, h)

not_unstaking : (a : ℕ) → is_valid_transition a unstaking ≡ false → ¬ (a ≡ active)
unfolding is_valid_transition allowed_transitions contains
not_unstaking a h q = ground (arith, h, q)

module _ (id : ℕ) (v : Validator) (s : State) (stored : IsStored id v s) where
  -- An operation that comes to one update.
  moved_by :
      (op : StatusOp)
      → v.status ≡ origin op
      → run op id s ≡ update_validator (after op v) s
      → with_voting_power (after op v) ≡ after op v
      → (after op v).consensus_id ≡ id
      → IsSizedValidator (after op v)
      → is_valid_transition v.status (after op v).status ≡ true
      → Outcome id v s op
  moved_by op here same power keyed sized valid =
      let (bs, done, now) = update-IsStored (after op v) s sized in
      moved _ here (same ∙ done)
        (record { found = ground (arith, now.found, keyed, power); keyed = keyed; sized = sized })
        valid

  resized :
      (st pw ju ae ue : ℕ)
      → st < 2 ^ 8
      → pw < 2 ^ 64
      → ju < 2 ^ 64
      → ae < 2 ^ 64
      → ue < 2 ^ 64
      → IsSizedValidator (record v {
        status = st;
        voting_power = pw;
        jailed_until = ju;
        activation_epoch = ae;
        unstake_epoch = ue;
      })
  resized st pw ju ae ue hs hp hj ha hu =
      let z = stored.sized in
      record {
        consensus_id = z.consensus_id;
        public_key = z.public_key;
        operator_address = z.operator_address;
        reward_address = z.reward_address;
        bonded_stake = z.bonded_stake;
        status = hs;
        commission_rate = z.commission_rate;
        voting_power = hp;
        jailed_until = hj;
        activation_epoch = ha;
        unstake_epoch = hu;
      }

  activate-Outcome : (epoch : ℕ) → epoch < 2 ^ 64 → Outcome id v s (activate epoch)
  unfolding run activate_validator transition_to with_voting_power
  activate-Outcome epoch h = elim (Bool-cases (v.status == pending)) [
    | inr other ↦ refused (λ q. ground (arith, q, other)) (ground (arith, stored.found))
    | inl here ↦
        moved_by (activate epoch) (status_eq v.status pending here) (ground (arith, stored.found))
          refl stored.keyed
          (resized active (stake_to_uint64 v.bonded_stake) v.jailed_until epoch v.unstake_epoch
            (omega arith) (stake_to_uint64-lt v.bonded_stake) stored.sized.jailed_until h
            stored.sized.unstake_epoch)
          (ground arith)
  ]

  jail-Outcome : (until_epoch : ℕ) → until_epoch < 2 ^ 64 → Outcome id v s (jail until_epoch)
  unfolding run jail_validator transition_to with_voting_power
  jail-Outcome until_epoch h = elim (Bool-cases (v.status == active)) [
    | inr other ↦ refused (λ q. ground (arith, q, other)) (ground (arith, stored.found))
    | inl here ↦
        moved_by (jail until_epoch) (status_eq v.status active here) (ground (arith, stored.found))
          refl stored.keyed
          (resized jailed 0 until_epoch v.activation_epoch v.unstake_epoch (omega arith)
            (omega arith) h stored.sized.activation_epoch stored.sized.unstake_epoch)
          (ground arith)
  ]

  start-Outcome :
      (unstake_epoch : ℕ) → unstake_epoch < 2 ^ 64 → Outcome id v s (start unstake_epoch)
  unfolding run start_unstake transition_to with_voting_power
  start-Outcome unstake_epoch h = elim (Bool-cases (is_valid_transition v.status unstaking)) [
    | inr other ↦ refused (not_unstaking v.status other) (ground (arith, stored.found))
    | inl here ↦
        moved_by (start unstake_epoch) (unstaking_from v.status here) (ground (arith, stored.found))
          refl stored.keyed
          (resized unstaking 0 v.jailed_until v.activation_epoch unstake_epoch (omega arith)
            (omega arith) stored.sized.jailed_until stored.sized.activation_epoch h)
          here
  ]

  unjail-Outcome : Outcome id v s unjail
  unfolding run unjail_validator transition_to with_voting_power
  unjail-Outcome = elim (Bool-cases (v.status == jailed)) [
    | inr other ↦ refused (λ q. ground (arith, q, other)) (ground (arith, stored.found))
    | inl here ↦
        moved_by unjail (status_eq v.status jailed here) (ground (arith, stored.found)) refl
          stored.keyed
          (resized active (stake_to_uint64 v.bonded_stake) 0 v.activation_epoch v.unstake_epoch
            (omega arith) (stake_to_uint64-lt v.bonded_stake) (omega arith)
            stored.sized.activation_epoch stored.sized.unstake_epoch)
          (ground arith)
  ]

  -- Activation, jailing, unjailing and the start of unstaking, of a stored validator and with an
  -- epoch that fits a uint64: activation starts from pending, jailing and unstaking from active,
  -- unjailing from jailed. Outside that status the operation refuses with
  -- its own error and changes nothing. In it,
  -- it succeeds, the move is one that the life cycle allows, and what is then stored is the
  -- validator with the new status, with the epoch written (the epoch of activation, the end of
  -- jail or the epoch of unstaking; unjailing clears the end of jail), with the low 64 bits of its
  -- stake as its power if it is then active and no power otherwise, and with nothing else changed.
  pub run-Outcome : (op : StatusOp) → IsSizedOp op → Outcome id v s op
  run-Outcome (activate epoch) h = activate-Outcome epoch h
  run-Outcome (jail until_epoch) h = jail-Outcome until_epoch h
  run-Outcome (start unstake_epoch) h = start-Outcome unstake_epoch h
  run-Outcome unjail h = unjail-Outcome
