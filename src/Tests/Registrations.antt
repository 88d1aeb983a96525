-- ===== src/Tests/Registrations.antt =====
-- A registration that meets its validator.
use dsn.Prelude.{◌-◌, ◌≡◌, refl, [], ◌∷◌, true, some, arith}
use dsn.Prelude.Map.{lookup, insert, nat_eq}
use dsn.Error.{Result, ok, err, validator_exists}
use dsn.Bytes.{Bytes}
use dsn.Types.Vote.{Crypto}
use dsn.Types.Transaction.{Transaction}
use dsn.Types.Transaction.Registration.{
  RegistrationMsg, encode_registration, registration, new_registration_tx,
  registration-new_registration_tx,
}
use dsn.State.Key.{validator_key}
use dsn.State.Account.{Account}
use dsn.State.Memory.{State, stored, get_bytes}
use dsn.State.Payload.{check_registration, derive_consensus_id}
use dsn.State.Applier.{check_transaction, apply_transaction}
use dsn.State.Applier.Repeated.{IsRepeated, apply_transaction-repeated}

-- A digest whose first twenty bytes are the number 1, and a check that accepts.
abbrev crypto : Crypto
crypto = record { sha256 = λ _. 79228162514264337593543950336; verify = λ _ _ _. true }

abbrev bytes_of : Result Bytes → Bytes
bytes_of (ok bs) = bs
bytes_of (err _) = []

abbrev message : RegistrationMsg
message = record {
  address = 3;
  pub_key =
      0 ∷ 0 ∷ 0 ∷ 0 ∷ 0 ∷ 0 ∷ 0 ∷ 0 ∷ 0 ∷ 0 ∷ 0 ∷ 0 ∷ 0 ∷ 0 ∷ 0 ∷ 0 ∷ 0 ∷ 0 ∷ 0 ∷ 0 ∷ 0 ∷ 0 ∷ 0 ∷ 0
      ∷ 0 ∷ 0 ∷ 0 ∷ 0 ∷ 0 ∷ 0 ∷ 0 ∷ 12 ∷ [];
  stake = 100_000;
  commission = 500;
}

abbrev registration_tx : Transaction
registration_tx = record {
  version = 1;
  chain_id = 7;
  intent_id = 11;
  sender = 3;
  nonce = 1;
  payload = bytes_of (encode_registration message);
  constraints = [];
  max_fee = 10;
  gas_limit = 50000;
  timestamp = 1000;
  signature = 9 ∷ [];
  tx_type = 3;
}

abbrev account : Account
account = record {
  address = 3;
  balance = 200_000;
  nonce = 0;
  storage_root = 0;
  code_hash = 0;
  permissions = 0;
  public_key = 12;
}

abbrev taken : State
taken = record {
  accounts = (3, account) ∷ [];
  kvstore = (validator_key 1, 0 ∷ []) ∷ [];
  snapshots = [];
}

passes : check_transaction crypto 1000 registration_tx taken ≡ (ok (stored 3), taken)
unfolding check_transaction dsn.Types.Transaction.validate dsn.Bytes.put_be
    dsn.Types.Timestamp.validate_timestamp dsn.State.Memory.get_account lookup dsn.State.Memory.load
passes = refl

carries : registration registration_tx ≡ ok (some message)
unfolding registration dsn.Types.Transaction.Registration.decode_registration dsn.Bytes.Do.◌>>=◌
    dsn.Bytes.read_uint dsn.Bytes.read_full encode_registration dsn.Bytes.writes
    dsn.Bytes.write_uint dsn.Types.Transaction.Registration.write_pub_key dsn.Bytes.write_bytes
    dsn.Bytes.put_be dsn.Bytes.Do.pure dsn.Bytes.be_value
carries = refl

allowed : check_registration registration_tx message taken ≡ (ok tt, taken)
unfolding check_registration
allowed = refl

repeated : IsRepeated crypto 1000 registration_tx message account taken
unfolding lookup get_bytes derive_consensus_id
repeated = record {
  is_registration = refl;
  passes = passes;
  carries = carries;
  allowed = allowed;
  found = refl;
  covered = omega arith;
  fits = omega arith;
  record_bytes = 0 ∷ [];
  taken = refl;
}

apply_transaction-repeated_example : apply_transaction crypto 1000 registration_tx taken ≡ (
  err validator_exists,
  record taken {
    accounts = insert 3 (record account { balance = 200_000 - 100_000 }) taken.accounts;
  },
)
apply_transaction-repeated_example =
    apply_transaction-repeated crypto 1000 registration_tx message account taken repeated
