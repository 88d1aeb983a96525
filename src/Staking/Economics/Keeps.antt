-- ===== src/Staking/Economics/Keeps.antt =====
-- The issuance and the rewards of an epoch write the counters of the supply, and no other entry of
-- the key-value store.
use dsn.Prelude.{
  ℕ, ◌*◌, ◌/◌, ◌+◌, ◌-◌, ◌^◌, ◌≡◌, refl, List, [], ◌∷◌, Option, none, some, false, length, ◌==◌,
  ◌||◌, wrap64,
}
use dsn.Exec.{pure, lift, gets}
use dsn.Bytes.{put_be}
use dsn.State.Key.{
  Key, key_eq, key_total_supply, key_treasury_supply, key_issued_supply, key_epoch_issuance,
  key_epoch_validator_pool,
}
use dsn.State.Payment.{pay}
use dsn.State.Keeps.{
  Keeps, Keeps-same, Keeps-pure, Keeps-lift, Keeps-gets, Keeps-if, Keeps-bind, Keeps-set_bytes,
  Keeps-pay,
}
use dsn.Staking.Validator.{Validator}
use dsn.Staking.Bonding.{reward_shares}
use dsn.Staking.Economics.{
  read_uint64, write_uint64, per_epoch_issuance, treasury_address, credit_treasury, record_issuance,
  issue_epoch_tokens,
}
use dsn.Staking.Economics.EpochRewards.{
  reward_address_of, pay_rewards, pay_pool, distribute_validator_rewards,
}
use dsn.Consensus.Snapshot.{ValidatorSnapshot}
use dsn.Consensus.Snapshot.Stored.{get_snapshot}

-- A key is none of those of the supply.
pub record IsOther (k : Key) : Type 0 where
  pub total : key_eq.beq key_total_supply k ≡ false
  pub treasury : key_eq.beq key_treasury_supply k ≡ false
  pub issued : key_eq.beq key_issued_supply k ≡ false
  pub issuance : (epoch : ℕ) → key_eq.beq (key_epoch_issuance epoch) k ≡ false
  pub pool : (epoch : ℕ) → key_eq.beq (key_epoch_validator_pool epoch) k ≡ false

Keeps-write_uint64 : (k j : Key) (v : ℕ) → key_eq.beq j k ≡ false → Keeps k (write_uint64 j v)
unfolding write_uint64
Keeps-write_uint64 k j v h = Keeps-set_bytes k j (put_be 8 v) h

Keeps-credit_treasury : (k : Key) (amount : ℕ) → IsOther k → Keeps k (credit_treasury amount)
unfolding credit_treasury
Keeps-credit_treasury k amount o = Keeps-if k (amount == 0) (pure tt) _ (Keeps-pure k tt) (
    Keeps-bind k (gets (read_uint64 key_treasury_supply)) _
      (Keeps-gets k (read_uint64 key_treasury_supply))
      (λ current.
        Keeps-bind k (write_uint64 key_treasury_supply (wrap64 (current + amount))) _
          (Keeps-write_uint64 k key_treasury_supply (wrap64 (current + amount)) o.treasury)
          (λ _. Keeps-pay k treasury_address amount)))

Keeps-record_issuance :
    (k : Key) (epoch supply issuance amount : ℕ)
    → IsOther k
    → Keeps k (record_issuance epoch supply issuance amount)
unfolding record_issuance
Keeps-record_issuance k epoch supply issuance amount o =
    Keeps-bind k (write_uint64 key_total_supply (wrap64 (supply + issuance))) _
      (Keeps-write_uint64 k key_total_supply (wrap64 (supply + issuance)) o.total)
      (λ _.
        Keeps-bind k (gets (read_uint64 key_issued_supply)) _
          (Keeps-gets k (read_uint64 key_issued_supply))
          (λ issued.
            Keeps-bind k (write_uint64 key_issued_supply (wrap64 (issued + issuance))) _
              (Keeps-write_uint64 k key_issued_supply (wrap64 (issued + issuance)) o.issued)
              (λ _.
                Keeps-bind k (write_uint64 (key_epoch_issuance epoch) issuance) _
                  (Keeps-write_uint64 k (key_epoch_issuance epoch) issuance (o.issuance epoch))
                  (λ _.
                    Keeps-write_uint64 k (key_epoch_validator_pool epoch) amount (o.pool epoch)))))

pub Keeps-issue_epoch_tokens :
    (k : Key) (epoch block_time blocks : ℕ)
    → IsOther k
    → Keeps k (issue_epoch_tokens epoch block_time blocks)
unfolding issue_epoch_tokens
Keeps-issue_epoch_tokens k epoch block_time blocks o =
    Keeps-bind k (gets (read_uint64 key_total_supply)) _
      (Keeps-gets k (read_uint64 key_total_supply))
      (λ supply.
        Keeps-bind k (lift (per_epoch_issuance supply block_time blocks)) _
          (Keeps-lift k (per_epoch_issuance supply block_time blocks))
          (λ issuance. Keeps-if k (issuance == 0) (pure 0) _ (Keeps-pure k 0) (
            Keeps-bind k (credit_treasury (wrap64 (issuance * 10) / 100)) _
              (Keeps-credit_treasury k (wrap64 (issuance * 10) / 100) o)
              (λ _.
                Keeps-bind k (record_issuance epoch supply issuance (wrap64 (issuance * 90) / 100))
                  _ (Keeps-record_issuance k epoch supply issuance (wrap64 (issuance * 90) / 100) o)
                  (λ _. Keeps-pure k issuance)))))

Keeps-pay_rewards : (k : Key) (vs : List Validator) (xs : List ℕ) → Keeps k (pay_rewards vs xs)
unfolding pay_rewards
Keeps-pay_rewards k [] xs = Keeps-pure k tt
Keeps-pay_rewards k (v ∷ vs) [] = Keeps-pure k tt
Keeps-pay_rewards k (v ∷ vs) (x ∷ xs) =
    let rest = Keeps-pay_rewards k vs xs in
    Keeps-if k (x == 0) (pay_rewards vs xs) _ rest (
      Keeps-bind k (pay (reward_address_of v) x) (λ _. pay_rewards vs xs)
        (Keeps-pay k (reward_address_of v) x) (λ _. rest))

Keeps-pay_pool :
    (k : Key) (pool : ℕ) (snap : Option ValidatorSnapshot) → Keeps k (pay_pool pool snap)
unfolding pay_pool
Keeps-pay_pool k pool none = Keeps-pure k tt
Keeps-pay_pool k pool (some snap) =
    Keeps-if k (length snap.validators == 0 || snap.total_power == 0) (pure tt) _ (Keeps-pure k tt)
      (Keeps-pay_rewards k snap.validators (reward_shares pool snap.total_power snap.validators))

pub Keeps-distribute_validator_rewards :
    (k : Key) (epoch : ℕ) → Keeps k (distribute_validator_rewards epoch)
unfolding distribute_validator_rewards
Keeps-distribute_validator_rewards k epoch =
    Keeps-bind k (gets (read_uint64 (key_epoch_validator_pool epoch))) _
      (Keeps-gets k (read_uint64 (key_epoch_validator_pool epoch)))
      (λ pool.
        let before = wrap64 (epoch + 2 ^ 64 - 1) in
        Keeps-if k (pool == 0 || before == 0) (pure tt) _ (Keeps-pure k tt) (
          Keeps-bind k (λ s. (get_snapshot before s, s)) (pay_pool pool)
            (Keeps-same k (λ s. (get_snapshot before s, s)) (λ s. refl)) (Keeps-pay_pool k pool)))
