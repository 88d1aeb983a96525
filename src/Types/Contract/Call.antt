-- ===== src/Types/Contract/Call.antt =====
-- types/call_contract_tx.go. An entrypoint is its bytes.
use dsn.Prelude.{ℕ, ◌^◌, ◌<◌, ◌≡◌, [], ◌∷◌, ◌++◌, length, ◌==◌, not}
use dsn.Error.{
  Result, ok, invalid_address, nonce_mismatch, invalid_encoding, invalid_contract_id,
  max_fee_exceeded, gas_limit_exceeded, invalid_signature, fail_if, ◌>>◌ as and_then,
}
use dsn.Bytes.{
  Bytes, Reader, put_be, read_uint, read_var_bytes, write_uint, write_var_bytes, writes,
}
use dsn.Bytes.Do.{◌>>=◌, pure, Inverts-cons, Inverts-nil}
use dsn.Bytes.RoundTrip.{Inverts-uint, Inverts-var_bytes}
use dsn.Types.Signature.{write_short_signature, read_short_signature, Inverts-short_signature}

pub record CallContractTx : Type 0 where
  pub sender : ℕ
  pub nonce : ℕ
  pub contract_id : ℕ
  pub entrypoint : Bytes
  pub calldata : Bytes
  pub max_fee : ℕ
  pub gas_limit : ℕ
  pub signature : Bytes

-- Hash.IsZero of the contract id is the test for 0.
unfoldable pub validate_call : CallContractTx → Result (Unit {0})
validate_call tx = and_then (fail_if (not (length (put_be 20 tx.sender) == 20)) invalid_address) (
    and_then (fail_if (tx.nonce == 0) nonce_mismatch) (
      and_then (fail_if (tx.contract_id == 0) invalid_contract_id) (
        and_then (fail_if (length tx.entrypoint == 0) invalid_encoding) (
          and_then (fail_if (tx.max_fee == 0) max_fee_exceeded) (
            and_then (fail_if (tx.gas_limit == 0) gas_limit_exceeded)
              (fail_if (length tx.signature == 0) invalid_signature))))))

unfoldable pub encode_call : CallContractTx → Result Bytes
encode_call tx = writes (
    write_uint 20 tx.sender
    ∷ write_uint 8 tx.nonce
    ∷ write_uint 32 tx.contract_id
    ∷ write_var_bytes tx.entrypoint
    ∷ write_var_bytes tx.calldata
    ∷ write_uint 8 tx.max_fee
    ∷ write_uint 8 tx.gas_limit
    ∷ write_short_signature tx.signature
    ∷ [])

unfoldable pub decode_call : Reader CallContractTx
decode_call = do
  sender ← read_uint 20
  nonce ← read_uint 8
  contract_id ← read_uint 32
  entrypoint ← read_var_bytes
  calldata ← read_var_bytes
  max_fee ← read_uint 8
  gas_limit ← read_uint 8
  signature ← read_short_signature
  pure (record {
    sender = sender;
    nonce = nonce;
    contract_id = contract_id;
    entrypoint = entrypoint;
    calldata = calldata;
    max_fee = max_fee;
    gas_limit = gas_limit;
    signature = signature;
  })

-- A call whose fields fit their types and whose encoding succeeds is decoded from it, whatever
-- follows.
decode_call-encode_call :
    (tx : CallContractTx) (bs rest : Bytes)
    → tx.sender < 2 ^ 160
    → tx.nonce < 2 ^ 64
    → tx.contract_id < 2 ^ 256
    → tx.max_fee < 2 ^ 64
    → tx.gas_limit < 2 ^ 64
    → encode_call tx ≡ ok bs
    → decode_call (bs ++ rest) ≡ ok (tx, rest)
unfolding encode_call decode_call
decode_call-encode_call tx bs rest hs hn hc hm hg =
    (Inverts-cons _ _ (Inverts-uint 20 tx.sender hs) (
        Inverts-cons _ _ (Inverts-uint 8 tx.nonce hn) (
          Inverts-cons _ _ (Inverts-uint 32 tx.contract_id hc) (
            Inverts-cons _ _ (Inverts-var_bytes tx.entrypoint) (
              Inverts-cons _ _ (Inverts-var_bytes tx.calldata) (
                Inverts-cons _ _ (Inverts-uint 8 tx.max_fee hm) (
                  Inverts-cons _ _ (Inverts-uint 8 tx.gas_limit hg) (
                    Inverts-cons _ _ (Inverts-short_signature tx.signature)
                      (Inverts-nil tx))))))))).at
      bs rest
