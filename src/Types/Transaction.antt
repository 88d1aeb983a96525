-- ===== src/Types/Transaction.antt =====
-- types/transaction.go: the transaction, its validation and its binary form.
pub mod Codec
pub mod RoundTrip
pub mod Registration
use dsn.Prelude.{ℕ, ◌^◌, ◌<◌, ◌≡◌, [], ◌∷◌, length, ◌==◌, not, if◌then◌else◌}
use dsn.Error.{
  Result, ok, err, invalid_address, nonce_mismatch, invalid_signature, max_fee_exceeded, fail_if,
  ◌>>=◌, ◌>>◌,
}
use dsn.Bytes.{Bytes, put_be}
use dsn.Types.Timestamp.{validate_timestamp}

-- TxType
abbrev pub standard : ℕ
standard = 0

abbrev pub deploy_contract : ℕ
deploy_contract = 1

abbrev pub call_contract : ℕ
call_contract = 2

abbrev pub validator_registration : ℕ
validator_registration = 3

pub record Transaction : Type 0 where
  pub version : ℕ
  pub chain_id : ℕ
  pub intent_id : ℕ
  pub sender : ℕ
  pub nonce : ℕ
  pub payload : Bytes
  pub constraints : Bytes
  pub max_fee : ℕ
  pub gas_limit : ℕ
  pub timestamp : ℕ
  pub signature : Bytes
  pub tx_type : ℕ

-- The fields fit their Go types.
pub record IsSized (tx : Transaction) : Type 0 where
  pub version : tx.version < 2 ^ 16
  pub chain_id : tx.chain_id < 2 ^ 32
  pub intent_id : tx.intent_id < 2 ^ 256
  pub sender : tx.sender < 2 ^ 160
  pub nonce : tx.nonce < 2 ^ 64
  pub max_fee : tx.max_fee < 2 ^ 64
  pub gas_limit : tx.gas_limit < 2 ^ 64
  pub timestamp : tx.timestamp < 2 ^ 64
  pub tx_type : tx.tx_type < 2 ^ 8

-- Validate. The clock is an argument.
unfoldable pub validate : ℕ → Transaction → Result (Unit {0})
validate now tx = do
  fail_if (not (length (put_be 20 tx.sender) == 20)) invalid_address
  fail_if (tx.nonce == 0) nonce_mismatch
  fail_if (length tx.signature == 0) invalid_signature
  validate_timestamp now tx.timestamp
  fail_if (tx.max_fee == 0) max_fee_exceeded
