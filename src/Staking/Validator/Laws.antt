-- ===== src/Staking/Validator/Laws.antt =====
-- A validator is decoded from its encoding, and its encoding succeeds.
use dsn.Prelude.{◌≡◌, ◌++◌, []}
use dsn.Error.{ok}
use dsn.Bytes.{Bytes}
use dsn.Bytes.Do.{Inverts-cons, Inverts-nil, Succeeds, Succeeds-cons, Succeeds-nil}
use dsn.Bytes.RoundTrip.{Inverts-uint, Succeeds-uint, Succeeds-padded}
use dsn.Types.Amount.{IsAmount, marshal}
use dsn.State.Account.RoundTrip.{Inverts-balance}
use dsn.Staking.Validator.{Validator, IsSizedValidator, encode_validator, decode_validator}
use mathlib.Core.List.{append-nil}
use mathlib.Core.Path.{subst}

-- A validator whose fields fit their types is decoded from its encoding where that succeeds,
-- whatever follows.
pub decode_validator-encode_validator :
    (v : Validator) (bs rest : Bytes)
    → IsSizedValidator v
    → encode_validator v ≡ ok bs
    → decode_validator (bs ++ rest) ≡ ok (v, rest)
unfolding encode_validator decode_validator
decode_validator-encode_validator v bs rest z =
    (Inverts-cons _ _ (Inverts-uint 20 v.consensus_id z.consensus_id) (
        Inverts-cons _ _ (Inverts-uint 32 v.public_key z.public_key) (
          Inverts-cons _ _ (Inverts-uint 20 v.operator_address z.operator_address) (
            Inverts-cons _ _ (Inverts-uint 20 v.reward_address z.reward_address) (
              Inverts-cons _ _ (Inverts-balance v.bonded_stake z.bonded_stake) (
                Inverts-cons _ _ (Inverts-uint 1 v.status z.status) (
                  Inverts-cons _ _ (Inverts-uint 2 v.commission_rate z.commission_rate) (
                    Inverts-cons _ _ (Inverts-uint 8 v.voting_power z.voting_power) (
                      Inverts-cons _ _ (Inverts-uint 8 v.jailed_until z.jailed_until) (
                        Inverts-cons _ _ (Inverts-uint 8 v.activation_epoch z.activation_epoch) (
                          Inverts-cons _ _ (Inverts-uint 8 v.unstake_epoch z.unstake_epoch)
                            (Inverts-nil v)))))))))))).at
      bs rest

-- The stored form, with nothing behind it.
pub decode_validator_whole :
    (v : Validator) (bs : Bytes)
    → IsSizedValidator v
    → encode_validator v ≡ ok bs
    → decode_validator bs ≡ ok (v, [])
decode_validator_whole v bs z e =
    subst (λ (b : Bytes). decode_validator b ≡ ok (v, [])) (append-nil bs)
      (decode_validator-encode_validator v bs [] z e)

-- A bonded stake of at most 128 bits is enough for the encoding to succeed.
pub encode_validator_total :
    (v : Validator) → IsAmount v.bonded_stake → Succeeds (encode_validator v)
unfolding encode_validator marshal
encode_validator_total v h =
    search (Succeeds-cons, Succeeds-nil, Succeeds-uint, Succeeds-padded 16 v.bonded_stake h) depth
      25
