-- ===== src/Staking/Registry/Stored.antt =====
-- A validator that is stored under its consensus id, and what an update makes of it.
use dsn.Prelude.{ℕ, ◌≡◌, refl, arith}
use dsn.Prelude.Map.{insert, lookup-insert}
use dsn.Error.{ok}
use dsn.Bytes.{Bytes}
use dsn.State.Key.{key_eq, validator_key}
use dsn.State.Memory.{State, get_bytes, set_bytes}
use dsn.Staking.Validator.{Validator, IsSizedValidator}
use dsn.Staking.Validator.Laws.{decode_validator_whole, encode_validator_total}
use dsn.Staking.Registry.{get_validator, with_voting_power, update_validator}
use dsn.Staking.Registry.Power.{stake_to_uint64-lt}

pub record IsStored (id : ℕ) (v : Validator) (s : State) : Type 0 where
  pub found : get_validator id s ≡ (ok v, s)
  pub keyed : v.consensus_id ≡ id
  pub sized : IsSizedValidator v

pub with_voting_power-IsSized :
    (v : Validator) → IsSizedValidator v → IsSizedValidator (with_voting_power v)
unfolding with_voting_power
with_voting_power-IsSized v z = record {
  consensus_id = z.consensus_id;
  public_key = z.public_key;
  operator_address = z.operator_address;
  reward_address = z.reward_address;
  bonded_stake = z.bonded_stake;
  status = z.status;
  commission_rate = z.commission_rate;
  voting_power = ground (arith, stake_to_uint64-lt v.bonded_stake);
  jailed_until = z.jailed_until;
  activation_epoch = z.activation_epoch;
  unstake_epoch = z.unstake_epoch;
}

-- An update succeeds, and the validator is then stored with the power that its status gives.
pub update-IsStored :
    (w : Validator) (s : State)
    → IsSizedValidator w
    → (bs : Bytes) × (update_validator w s
        ≡ (ok tt, record s { kvstore = insert (validator_key w.consensus_id) bs s.kvstore }))
      × IsStored w.consensus_id
          (with_voting_power w)
          (record s { kvstore = insert (validator_key w.consensus_id) bs s.kvstore })
unfolding update_validator set_bytes get_validator get_bytes
update-IsStored w s z =
    let p = with_voting_power w in
    let z' = with_voting_power-IsSized w z in
    let (bs, written) = encode_validator_total p z'.bonded_stake in
    let k = validator_key w.consensus_id in
    (
      bs,
      ground (arith, written),
      record {
        found =
            ground (arith, lookup-insert k k bs s.kvstore, decode_validator_whole p bs z' written);
        keyed = unfold with_voting_power in refl;
        sized = z';
      },
    )
