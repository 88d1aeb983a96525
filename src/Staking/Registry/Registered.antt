-- ===== src/Staking/Registry/Registered.antt =====
-- What the registration of a validator writes.
use dsn.Prelude.{ℕ, ◌+◌, ◌^◌, ◌<◌, ◌≤◌, ◌≡◌, refl, arith, some, none, wrap64, take, take-whole}
use dsn.Prelude.Map.{lookup, insert, map_laws}
use dsn.Error.{ok}
use dsn.Bytes.{Bytes, put_be}
use dsn.Bytes.RoundTrip.{be_value-put_be, length-put_be}
use dsn.Types.Amount.{Amount, IsAmount, add, marshal, unmarshal-marshal}
use dsn.Types.Vote.{Crypto}
use dsn.State.Key.{
  Key, key_eq, validator_key, validator_by_seq_key, validator_pubkey_key, validator_operator_key,
  key_validator_count, key_total_bonded,
}
use dsn.State.Memory.{State, Store, get_bytes, set_bytes}
use dsn.State.Payload.{counter, uint64_of, derive_consensus_id}
use dsn.Staking.Validator.{
  Validator, IsSizedValidator, pending, encode_validator, new_validator, validate_commission_rate,
}
use dsn.Staking.Validator.Laws.{decode_validator_whole, encode_validator_total}
use dsn.Staking.Registry.{
  register_validator, get_validator, get_validator_by_pub_key, get_validator_by_operator,
  indexed_validator, copy_id, get_validator_id_by_seq, validator_count, set_validator_count,
  total_bonded, set_total_bonded,
}

-- The validator that a registration makes.
abbrev pub registered : ℕ → ℕ → ℕ → Amount → ℕ → ℕ → Validator
registered id pub_key operator stake commission epoch = record {
  consensus_id = id;
  public_key = pub_key;
  operator_address = operator;
  reward_address = operator;
  bonded_stake = stake;
  status = pending;
  commission_rate = commission;
  voting_power = 0;
  jailed_until = 0;
  activation_epoch = wrap64 (epoch + 1);
  unstake_epoch = 0;
}

-- The store after the six writes.
abbrev pub written : Validator → Bytes → ℕ → Amount → Store → Store
written v bs seq bonded m = insert key_total_bonded (marshal bonded) (
    insert key_validator_count (put_be 8 seq) (
      insert (validator_by_seq_key seq) (put_be 20 v.consensus_id) (
        insert (validator_operator_key v.operator_address) (put_be 20 v.consensus_id) (
          insert (validator_pubkey_key v.public_key) (put_be 20 v.consensus_id)
            (insert (validator_key v.consensus_id) bs m)))))

pub copy_id-put_be : (id : ℕ) → id < 2 ^ 160 → copy_id (put_be 20 id) ≡ id
unfolding copy_id
copy_id-put_be id h =
    let l = length-put_be 20 id in
    let whole : take 20 (put_be 20 id) ≡ put_be 20 id = take-whole 20 (put_be 20 id) l in
    ground (arith, l, whole, be_value-put_be 20 id (omega (arith, h)))

-- What a registration needs to succeed; its numbers fit their Go types.
pub record CanRegister (id pub_key operator : ℕ) (stake : Amount) (commission : ℕ) (bonded : Amount)
    (s : State) : Type 0 where
  pub new_id : get_bytes (validator_key id) s ≡ none
  pub new_pub_key : get_bytes (validator_pubkey_key pub_key) s ≡ none
  pub new_operator : get_bytes (validator_operator_key operator) s ≡ none
  pub stake_le : 100000 ≤ stake
  pub commission_le : commission ≤ 10000
  pub total_fits : IsAmount (bonded + stake)
  pub id_fits : id < 2 ^ 160
  pub pub_key_fits : pub_key < 2 ^ 256
  pub operator_fits : operator < 2 ^ 160

module _ (c : Crypto) (pub_key operator commission epoch count : ℕ) (stake bonded : Amount)
    (s : State) (counted : validator_count s ≡ (ok count, s))
    (summed : total_bonded s ≡ (ok bonded, s))
    (can : CanRegister
      (derive_consensus_id c (put_be 32 pub_key))
      pub_key
      operator
      stake
      commission
      bonded
      s) where
  abbrev made : Validator
  made =
      registered (derive_consensus_id c (put_be 32 pub_key)) pub_key operator stake commission epoch

  made-IsSized : IsSizedValidator made
  made-IsSized = record {
    consensus_id = can.id_fits;
    public_key = can.pub_key_fits;
    operator_address = can.operator_fits;
    reward_address = can.operator_fits;
    bonded_stake = ground (arith, can.total_fits);
    status = omega arith;
    commission_rate = ground (arith, can.commission_le);
    voting_power = omega arith;
    jailed_until = omega arith;
    activation_epoch = ground arith;
    unstake_epoch = omega arith;
  }

  made_by_new_validator :
      new_validator made.consensus_id pub_key operator stake commission epoch ≡ ok made
  unfolding new_validator validate_commission_rate
  made_by_new_validator = ground (arith, can.stake_le, can.commission_le)

  -- The store at the time when the bonded total is read.
  abbrev before_total : Bytes → Store
  before_total bs = insert key_validator_count (put_be 8 (wrap64 (count + 1))) (
      insert (validator_by_seq_key (wrap64 (count + 1))) (put_be 20 made.consensus_id) (
        insert (validator_operator_key operator) (put_be 20 made.consensus_id) (
          insert (validator_pubkey_key pub_key) (put_be 20 made.consensus_id)
            (insert (validator_key made.consensus_id) bs s.kvstore))))

  lookup_total :
      (bs : Bytes) → lookup key_total_bonded (before_total bs) ≡ lookup key_total_bonded s.kvstore
  lookup_total bs = simp map_laws

  total_before :
      (bs : Bytes)
      → total_bonded (record s { kvstore = before_total bs })
        ≡ (ok bonded, record s { kvstore = before_total bs })
  unfolding total_bonded get_bytes
  total_before bs = ground (arith, summed, lookup_total bs)

  register_writes :
      (bs : Bytes)
      → encode_validator made ≡ ok bs
      → register_validator c pub_key operator stake commission epoch s ≡ (
        ok made.consensus_id,
        record s { kvstore = written made bs (wrap64 (count + 1)) (bonded + stake) s.kvstore },
      )
  unfolding register_validator set_bytes set_validator_count set_total_bonded add
  register_writes bs h = ground (
    arith,
    h,
    counted,
    made_by_new_validator,
    total_before bs,
    can.new_id,
    can.new_pub_key,
    can.new_operator,
    can.total_fits,
  )

  -- What the store holds after the writes.
  abbrev after : Bytes → Store
  after bs = written made bs (wrap64 (count + 1)) (bonded + stake) s.kvstore

  abbrev final : Bytes → State
  final bs = record s { kvstore = after bs }

  get_final :
      (bs : Bytes)
      → encode_validator made ≡ ok bs
      → get_validator made.consensus_id (final bs) ≡ (ok made, final bs)
  unfolding get_validator get_bytes
  get_final bs h =
      let found : lookup (validator_key made.consensus_id) (after bs) ≡ some bs =
        simp map_laws (ground arith) in
      ground (arith, found, decode_validator_whole made bs made-IsSized h)

  indexed_final :
      (k : Key) (bs : Bytes)
      → encode_validator made ≡ ok bs
      → lookup k (after bs) ≡ some (put_be 20 made.consensus_id)
      → indexed_validator k (final bs) ≡ (ok made, final bs)
  unfolding indexed_validator get_bytes
  indexed_final k bs h found =
      ground (arith, found, copy_id-put_be made.consensus_id can.id_fits, get_final bs h)

  count_final : (bs : Bytes) → validator_count (final bs) ≡ (ok (wrap64 (count + 1)), final bs)
  unfolding validator_count counter get_bytes uint64_of
  count_final bs =
      let found : lookup key_validator_count (after bs) ≡ some (put_be 8 (wrap64 (count + 1))) =
        simp map_laws in
      let n = wrap64 (count + 1) in
      ground (
        arith,
        found,
        length-put_be 8 n,
        take-whole 8 (put_be 8 n) (length-put_be 8 n),
        be_value-put_be 8 n (omega arith),
      )

  total_final : (bs : Bytes) → total_bonded (final bs) ≡ (ok (bonded + stake), final bs)
  unfolding total_bonded get_bytes
  total_final bs =
      let found : lookup key_total_bonded (after bs) ≡ some (marshal (bonded + stake)) =
        simp map_laws in
      ground (arith, found, unmarshal-marshal (bonded + stake) can.total_fits)

  seq_final :
      (bs : Bytes)
      → get_validator_id_by_seq (wrap64 (count + 1)) (final bs) ≡ (ok made.consensus_id, final bs)
  unfolding get_validator_id_by_seq get_bytes
  seq_final bs =
      let found : lookup (validator_by_seq_key (wrap64 (count + 1))) (after bs)
          ≡ some (put_be 20 made.consensus_id) =
        simp map_laws (ground arith) in
      ground (arith, found, copy_id-put_be made.consensus_id can.id_fits)

  -- Let a registration's id, public key and operator be new and fit their types, its stake be at
  -- least 100000, its commission at most 10000 and the new bonded total fit 128 bits. It then
  -- succeeds: the validator, pending and without power, is found by its consensus id, its public
  -- key, its operator and its sequence number, the count has gone up by one and the bonded total
  -- by the stake, and no account has changed.
  pub register_validator-found :
      (t : State) × (register_validator c pub_key operator stake commission epoch s
        ≡ (ok made.consensus_id, t))
      × (get_validator made.consensus_id t ≡ (ok made, t))
      × (get_validator_by_pub_key pub_key t ≡ (ok made, t))
      × (get_validator_by_operator operator t ≡ (ok made, t))
      × (get_validator_id_by_seq (wrap64 (count + 1)) t ≡ (ok made.consensus_id, t))
      × (validator_count t ≡ (ok (wrap64 (count + 1)), t))
      × (total_bonded t ≡ (ok (bonded + stake), t))
      × (t.accounts ≡ s.accounts)
  unfolding get_validator_by_pub_key get_validator_by_operator
  register_validator-found =
      let (bs, h) = encode_validator_total made (ground (arith, can.total_fits)) in
      (
        final bs,
        register_writes bs h,
        get_final bs h,
        indexed_final (validator_pubkey_key pub_key) bs h (simp map_laws (ground arith)),
        indexed_final (validator_operator_key operator) bs h (simp map_laws (ground arith)),
        seq_final bs,
        count_final bs,
        total_final bs,
        refl,
      )
