-- ===== src/Staking/Slashing/Keeps.antt =====
-- A slash writes the validator and the bonded total, and no other entry of the key-value store.
use dsn.Prelude.{ℕ, ◌≡◌, ◌+◌, ap, false, ◌==◌, if◌then◌else◌, inl, inr, arith, wrap64, Option-cases}
use dsn.Error.{ok, err, Result-cases, cannot_slash_removed}
use dsn.Exec.{pure, lift, gets, raise_if}
use dsn.Types.Amount.{Amount, sub, is_zero, marshal}
use dsn.Types.Evidence.{Evidence}
use dsn.State.Key.{Key, key_eq, key_current_epoch, key_total_bonded, validator_key}
use dsn.State.Memory.{State, get_bytes, set_bytes}
use dsn.State.Payload.{counter}
use dsn.State.Keeps.{
  Keeps, Keeps-same, Keeps-pure, Keeps-lift, Keeps-gets, Keeps-if, Keeps-bind, Keeps-set_bytes,
  Keeps-counter,
}
use dsn.Staking.Validator.{
  Validator, encode_validator, decode_validator, transition_to, active, jailed, removed,
}
use dsn.Staking.Registry.{
  get_validator, update_validator, with_voting_power, total_bonded, set_total_bonded,
}
use dsn.Staking.Slashing.{slash_amount, jail_if_active, take_slash, apply_slash, get_slash_params}
use dsn.Staking.Slashing.Offense.{slash_validator, slash_percent, offense_from_evidence}

-- A key is none of those that a slash writes.
pub record IsApart (k : Key) : Type 0 where
  pub total : key_eq.beq key_total_bonded k ≡ false
  pub validator : (id : ℕ) → key_eq.beq (validator_key id) k ≡ false

get_validator-state : (id : ℕ) (s : State) → (get_validator id s).1 ≡ s
unfolding get_validator
get_validator-state id s = elim (Option-cases (get_bytes (validator_key id) s)) [
  | inl q ↦ ground (arith, q)
  | inr (bs, q) ↦ elim (Result-cases (decode_validator bs)) [
    | inl (r, q') ↦ ground (arith, q, q')
    | inr (x, q') ↦ ground (arith, q, q')
  ]
]

pub Keeps-get_validator : (k : Key) (id : ℕ) → Keeps k (get_validator id)
Keeps-get_validator k id =
    Keeps-same k (get_validator id) (λ s. ap (λ (t : State). t.kvstore) (get_validator-state id s))

total_bonded-state : (s : State) → (total_bonded s).1 ≡ s
unfolding total_bonded
total_bonded-state s = elim (Option-cases (get_bytes key_total_bonded s)) [
  | inl q ↦ ground (arith, q)
  | inr (bs, q) ↦ ground (arith, q)
]

Keeps-total_bonded : (k : Key) → Keeps k total_bonded
Keeps-total_bonded k =
    Keeps-same k total_bonded (λ s. ap (λ (t : State). t.kvstore) (total_bonded-state s))

Keeps-update_validator : (k : Key) (v : Validator) → IsApart k → Keeps k (update_validator v)
unfolding update_validator
Keeps-update_validator k v o =
    Keeps-bind k (lift (encode_validator (with_voting_power v)))
      (set_bytes (validator_key v.consensus_id))
      (Keeps-lift k (encode_validator (with_voting_power v)))
      (λ bs. Keeps-set_bytes k (validator_key v.consensus_id) bs (o.validator v.consensus_id))

Keeps-jail_if_active : (k : Key) (epochs : ℕ) (v : Validator) → Keeps k (jail_if_active epochs v)
unfolding jail_if_active
Keeps-jail_if_active k epochs v =
    Keeps-if k (v.status == active) _ (pure v)
      (Keeps-bind k (counter key_current_epoch 0) _ (Keeps-counter k key_current_epoch 0) (λ now.
        Keeps-bind k (lift (transition_to jailed v)) _ (Keeps-lift k (transition_to jailed v))
          (λ v'.
            Keeps-pure k (record v' { jailed_until = wrap64 (now + epochs); voting_power = 0 }))))
      (Keeps-pure k v)

Keeps-take_slash :
    (k : Key) (v : Validator) (amount : Amount) (epochs : ℕ)
    → IsApart k
    → Keeps k (take_slash v amount epochs)
unfolding take_slash set_total_bonded
Keeps-take_slash k v amount epochs o =
    Keeps-bind k (lift (sub v.bonded_stake amount)) _ (Keeps-lift k (sub v.bonded_stake amount))
      (λ stake. Keeps-bind k total_bonded _ (Keeps-total_bonded k) (λ total.
        Keeps-bind k (lift (sub total amount)) _ (Keeps-lift k (sub total amount)) (λ total'.
          Keeps-bind k (set_total_bonded total') _
            (Keeps-set_bytes k key_total_bonded (marshal total') o.total)
            (λ _.
              Keeps-bind k (jail_if_active epochs (record v { bonded_stake = stake }))
                update_validator (Keeps-jail_if_active k epochs (record v { bonded_stake = stake }))
                (λ v'. Keeps-update_validator k v' o)))))

Keeps-apply_slash :
    (k : Key) (id percent epochs : ℕ) → IsApart k → Keeps k (apply_slash id percent epochs)
unfolding apply_slash
Keeps-apply_slash k id percent epochs o =
    Keeps-bind k (get_validator id) _ (Keeps-get_validator k id) (λ v.
      Keeps-bind k (raise_if (v.status == removed) cannot_slash_removed) _
        (Keeps-lift k (if v.status == removed then err cannot_slash_removed else ok tt))
        (λ _.
          Keeps-bind k (lift (slash_amount percent v.bonded_stake)) _
            (Keeps-lift k (slash_amount percent v.bonded_stake))
            (λ amount.
              Keeps-if k (is_zero amount) (pure tt) _ (Keeps-pure k tt)
                (Keeps-take_slash k v amount epochs o))))

pub Keeps-slash_validator :
    (k : Key) (id : ℕ) (ev : Evidence) → IsApart k → Keeps k (slash_validator id ev)
unfolding slash_validator
Keeps-slash_validator k id ev o =
    Keeps-bind k (lift (offense_from_evidence ev)) _ (Keeps-lift k (offense_from_evidence ev))
      (λ offense.
        Keeps-bind k (gets get_slash_params) _ (Keeps-gets k get_slash_params)
          (λ p. Keeps-apply_slash k id (slash_percent p offense) p.jail_epochs o))
