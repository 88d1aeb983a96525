-- ===== src/Staking/Bonding/Restake.antt =====
-- The end that Bond, Slash and applySlash share: a new bonded total and a validator with a new
-- stake are written.
use dsn.Prelude.{ℕ, ◌≡◌, refl, arith}
use dsn.Prelude.Map.{insert, lookup-insert}
use dsn.Error.{ok}
use dsn.Exec.{◌>>◌}
use dsn.Types.Amount.{Amount, IsAmount, marshal, unmarshal-marshal}
use dsn.State.Key.{key_eq, key_total_bonded, validator_key}
use dsn.State.Memory.{State, get_bytes, set_bytes}
use dsn.Staking.Validator.{Validator, IsSizedValidator}
use dsn.Staking.Registry.{with_voting_power, update_validator, total_bonded, set_total_bonded}
use dsn.Staking.Registry.Stored.{IsStored, update-IsStored}

-- The validator and the bonded total that a state holds, and accounts that it keeps.
pub record Holds (id : ℕ) (v : Validator) (bonded : Amount) (s : State) : Type 0 where
  pub stored : IsStored id v s
  pub total : total_bonded s ≡ (ok bonded, s)
  pub sized : IsAmount bonded

abbrev pub with_stake : Amount → Validator → Validator
with_stake stake v = record v { bonded_stake = stake }

pub with_stake-IsSized :
    (stake : Amount) (v : Validator)
    → IsAmount stake
    → IsSizedValidator v
    → IsSizedValidator (with_stake stake v)
with_stake-IsSized stake v h z = record {
  consensus_id = z.consensus_id;
  public_key = z.public_key;
  operator_address = z.operator_address;
  reward_address = z.reward_address;
  bonded_stake = h;
  status = z.status;
  commission_rate = z.commission_rate;
  voting_power = z.voting_power;
  jailed_until = z.jailed_until;
  activation_epoch = z.activation_epoch;
  unstake_epoch = z.unstake_epoch;
}

pub restake :
    (w : Validator) (bonded : Amount) (s : State)
    → IsSizedValidator w
    → IsAmount bonded
    → (t : State) × ((set_total_bonded bonded >> update_validator w) s ≡ (ok tt, t))
      × Holds w.consensus_id (with_voting_power w) bonded t
      × (t.accounts ≡ s.accounts)
unfolding set_total_bonded set_bytes total_bonded get_bytes
restake w bonded s z h =
    let u = record s { kvstore = insert key_total_bonded (marshal bonded) s.kvstore } in
    let (bs, done, now) = update-IsStored w u z in
    (
      _,
      ground (arith, done),
      record {
        stored = now;
        total = ground (
          arith,
          lookup-insert (validator_key w.consensus_id) key_total_bonded bs u.kvstore,
          lookup-insert key_total_bonded key_total_bonded (marshal bonded) s.kvstore,
          unmarshal-marshal bonded h,
        );
        sized = h;
      },
      refl,
    )
