-- ===== src/Types/Transaction/Codec.antt =====
-- Transaction.Encode and Transaction.Decode.
use dsn.Prelude.{ℕ, List, [], ◌∷◌}
use dsn.Error.{Result, ok, err}
use dsn.Bytes.{Bytes, Reader, read_uint, read_var_bytes, write_uint, write_var_bytes, writes}
use dsn.Bytes.Do.{◌>>=◌, pure}
use dsn.Types.Signature.{write_short_signature, read_short_signature}
use dsn.Types.Transaction.{Transaction, standard}

-- The writes of Encode, in order.
unfoldable pub encode_steps : Transaction → List (Result Bytes)
encode_steps tx =
    write_uint 2 tx.version
    ∷ write_uint 4 tx.chain_id
    ∷ write_uint 32 tx.intent_id
    ∷ write_uint 20 tx.sender
    ∷ write_uint 8 tx.nonce
    ∷ write_var_bytes tx.payload
    ∷ write_var_bytes tx.constraints
    ∷ write_uint 8 tx.max_fee
    ∷ write_uint 8 tx.gas_limit
    ∷ write_uint 8 tx.timestamp
    ∷ write_short_signature tx.signature
    ∷ write_uint 1 tx.tx_type
    ∷ []

unfoldable pub encode : Transaction → Result Bytes
unfolding encode_steps
encode tx = writes (encode_steps tx)

-- An old transaction ends before its type, and is a standard one.
unfoldable pub read_tx_type : Reader ℕ
read_tx_type bs = elim (read_uint 1 bs) [ ok r ↦ ok r | err _ ↦ ok (standard, bs) ]

unfoldable pub decode : Reader Transaction
decode = do
  version ← read_uint 2
  chain_id ← read_uint 4
  intent_id ← read_uint 32
  sender ← read_uint 20
  nonce ← read_uint 8
  payload ← read_var_bytes
  constraints ← read_var_bytes
  max_fee ← read_uint 8
  gas_limit ← read_uint 8
  timestamp ← read_uint 8
  signature ← read_short_signature
  tx_type ← read_tx_type
  pure (record {
    version = version;
    chain_id = chain_id;
    intent_id = intent_id;
    sender = sender;
    nonce = nonce;
    payload = payload;
    constraints = constraints;
    max_fee = max_fee;
    gas_limit = gas_limit;
    timestamp = timestamp;
    signature = signature;
    tx_type = tx_type;
  })
