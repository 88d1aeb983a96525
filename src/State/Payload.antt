-- ===== src/State/Payload.antt =====
-- state/applier.go: what ApplyTransaction does for the payload, between its checks and the fee: the
-- transfer of a standard transaction and the registration of a validator. Both get the pointer to
-- the sender's account and return it.
use dsn.Prelude.{
  ℕ, ◌+◌, ◌-◌, ◌/◌, ◌%◌, ◌^◌, ◌∷◌, ◌++◌, Bool, true, false, Option, none, some, length, take, drop,
  ltb, ◌==◌, not, if◌then◌else◌, wrap64,
}
use dsn.Error.{
  Result, ok, err, insufficient_balance, nil_message, sender_mismatch, invalid_pub_key,
  insufficient_stake, commission_too_high, validator_exists, panic,
}
use dsn.Exec.{◌>>=◌, ◌>>◌, pure, lift, gets, or_raise, raise_if}
use dsn.Bytes.{Bytes, put_be, be_value, zeros}
use dsn.Types.Amount.{Amount, add, marshal, unmarshal}
use dsn.Types.Vote.{Crypto}
use dsn.Types.Transaction.{Transaction, standard, validator_registration}
use dsn.Types.Transaction.Registration.{RegistrationMsg, registration}
use dsn.State.Key.{
  Key, validator_key, validator_pubkey_key, validator_operator_key, key_validator_count,
  key_total_bonded, key_current_epoch,
}
use dsn.State.Memory.{State, Action, Ref, load, debit, credit, set_account, get_bytes, set_bytes}
use dsn.State.Transitions.{get_or_new}

-- binary.BigEndian.Uint64 of a slice: a shorter one is a panic, and a longer one is cut.
unfoldable pub uint64_of : Bytes → Result ℕ
uint64_of bs = if ltb (length bs) 8 then err panic else ok (be_value (take 8 bs))

abbrev pub is_some {ℓ} : {A : Type ℓ} → Option A → Bool
is_some none = false
is_some (some _) = true

-- A stored counter, or the default where the key is missing.
unfoldable pub counter : Key → ℕ → Action ℕ
unfolding uint64_of get_bytes
counter key default s = elim (get_bytes key s) [
  | none ↦ (ok default, s)
  | some bs ↦ (uint64_of bs, s)
]

-- DeriveConsensusID: the first twenty of the digest's thirty-two bytes.
unfoldable pub derive_consensus_id : Crypto → Bytes → ℕ
derive_consensus_id c pub_key = c.sha256 pub_key / 2 ^ 96

abbrev pub recipient_of : Transaction → ℕ
recipient_of tx = be_value (take 20 tx.payload)

abbrev pub amount_of : Transaction → ℕ
amount_of tx = be_value (take 8 (drop 20 tx.payload))

unfoldable pub apply_transfer : Transaction → Ref → Action Ref
apply_transfer tx sender = if ltb (length tx.payload) 28 then pure sender else do
  total_cost ← lift (add tx.max_fee (amount_of tx))
  a ← load sender
  raise_if (ltb a.balance total_cost) insufficient_balance
  recipient ← get_or_new (recipient_of tx)
  recipient' ← credit recipient (amount_of tx)
  sender' ← debit sender (amount_of tx)
  set_account (recipient_of tx) recipient'
  pure sender'

-- The bytes that are stored for a new validator: the stake is padded behind.
unfoldable pub validator_data : RegistrationMsg → ℕ → ℕ → Bytes
unfolding zeros
validator_data msg sender activation_epoch =
    let stake = marshal msg.stake in
    msg.pub_key
    ++ (put_be 20 sender
        ++ (stake
            ++ (zeros (16 - length stake)
                ++ (put_be 2 (msg.commission % 2 ^ 16) ++ (0 ∷ put_be 8 activation_epoch)))))

-- The bonded total that is stored; bytes that UnmarshalBinary refuses leave it 0.
unfoldable pub stored_total_bonded : State → Amount
unfolding get_bytes unmarshal
stored_total_bonded s = elim (get_bytes key_total_bonded s) [
  | none ↦ 0
  | some bs ↦ elim (unmarshal bs) [ ok a ↦ a | err _ ↦ 0 ]
]

-- Add's error is dropped, and the empty amount that comes with it has no value to marshal.
unfoldable pub add_bonded : Amount → Amount → Result Amount
add_bonded a b = elim (add a b) [ ok c ↦ ok c | err _ ↦ err panic ]

-- The checks on the message, in order.
unfoldable pub check_registration : Transaction → RegistrationMsg → Action (Unit {0})
check_registration tx msg = do
  raise_if (not (msg.address == tx.sender)) sender_mismatch
  raise_if (not (length msg.pub_key == 32)) invalid_pub_key
  raise_if (ltb msg.stake 100000) insufficient_stake
  raise_if (ltb 10000 msg.commission) commission_too_high

-- The writes of the validator, its two indexes, the count and the bonded total.
unfoldable pub store_validator : ℕ → RegistrationMsg → ℕ → Action (Unit {0})
store_validator sender msg id = do
  current_epoch ← counter key_current_epoch 0
  set_bytes (validator_key id) (validator_data msg sender (wrap64 (current_epoch + 1)))
  set_bytes (validator_pubkey_key (be_value msg.pub_key)) (put_be 20 id)
  set_bytes (validator_operator_key sender) (put_be 20 id)
  count ← counter key_validator_count 0
  set_bytes key_validator_count (put_be 8 (wrap64 (count + 1)))
  total ← gets stored_total_bonded
  new_total ← lift (add_bonded total msg.stake)
  set_bytes key_total_bonded (marshal new_total)

unfoldable pub apply_registration : Crypto → Transaction → Ref → Action Ref
unfolding check_registration
apply_registration c tx sender = do
  carried ← lift (registration tx)
  msg ← or_raise carried nil_message
  check_registration tx msg
  total_cost ← lift (add tx.max_fee msg.stake)
  a ← load sender
  raise_if (ltb a.balance total_cost) insufficient_balance
  sender' ← debit sender msg.stake
  taken ← gets (get_bytes (validator_key (derive_consensus_id c msg.pub_key)))
  raise_if (is_some taken) validator_exists
  store_validator tx.sender msg (derive_consensus_id c msg.pub_key)
  pure sender'

-- The branches on the type; a contract transaction has nothing to do here.
unfoldable pub apply_payload : Crypto → Transaction → Ref → Action Ref
apply_payload c tx sender =
    if tx.tx_type == standard
    then apply_transfer tx sender
    else if tx.tx_type == validator_registration
    then apply_registration c tx sender
    else pure sender
