-- ===== src/Types/Contract/Deploy.antt =====
-- types/deploy_contract_tx.go. Decode first sets the code hash to the digest of the code, and then
-- overwrites it by the hash that it reads, so the digest does not show in the result.
use dsn.Prelude.{ℕ, ◌*◌, ◌^◌, ◌<◌, ◌≡◌, [], ◌∷◌, ◌++◌, length, ◌==◌, ltb, not}
use dsn.Error.{
  Result, ok, invalid_address, nonce_mismatch, invalid_encoding, contract_size_exceeded,
  max_fee_exceeded, gas_limit_exceeded, invalid_signature, fail_if, ◌>>◌ as and_then,
}
use dsn.Bytes.{
  Bytes, Reader, put_be, read_uint, read_var_bytes, write_uint, write_var_bytes, writes,
}
use dsn.Bytes.Do.{◌>>=◌, pure, Inverts-cons, Inverts-nil}
use dsn.Bytes.RoundTrip.{Inverts-uint, Inverts-var_bytes}
use dsn.Types.Signature.{write_short_signature, read_short_signature, Inverts-short_signature}

abbrev pub max_contract_code_size : ℕ
max_contract_code_size = 1 * 1024 * 1024

pub record DeployContractTx : Type 0 where
  pub sender : ℕ
  pub nonce : ℕ
  pub wasm_code : Bytes
  pub code_hash : ℕ
  pub max_fee : ℕ
  pub gas_limit : ℕ
  pub signature : Bytes

unfoldable pub validate_deploy : DeployContractTx → Result (Unit {0})
validate_deploy tx = and_then (fail_if (not (length (put_be 20 tx.sender) == 20)) invalid_address) (
    and_then (fail_if (tx.nonce == 0) nonce_mismatch) (
      and_then (fail_if (length tx.wasm_code == 0) invalid_encoding) (
        and_then (fail_if (ltb max_contract_code_size (length tx.wasm_code)) contract_size_exceeded)
          (and_then (fail_if (tx.max_fee == 0) max_fee_exceeded) (
            and_then (fail_if (tx.gas_limit == 0) gas_limit_exceeded)
              (fail_if (length tx.signature == 0) invalid_signature))))))

unfoldable pub encode_deploy : DeployContractTx → Result Bytes
encode_deploy tx = writes (
    write_uint 20 tx.sender
    ∷ write_uint 8 tx.nonce
    ∷ write_var_bytes tx.wasm_code
    ∷ write_uint 32 tx.code_hash
    ∷ write_uint 8 tx.max_fee
    ∷ write_uint 8 tx.gas_limit
    ∷ write_short_signature tx.signature
    ∷ [])

unfoldable pub decode_deploy : Reader DeployContractTx
decode_deploy = do
  sender ← read_uint 20
  nonce ← read_uint 8
  wasm_code ← read_var_bytes
  code_hash ← read_uint 32
  max_fee ← read_uint 8
  gas_limit ← read_uint 8
  signature ← read_short_signature
  pure (record {
    sender = sender;
    nonce = nonce;
    wasm_code = wasm_code;
    code_hash = code_hash;
    max_fee = max_fee;
    gas_limit = gas_limit;
    signature = signature;
  })

-- A deployment whose fields fit their types and whose encoding succeeds is decoded from it,
-- whatever follows.
decode_deploy-encode_deploy :
    (tx : DeployContractTx) (bs rest : Bytes)
    → tx.sender < 2 ^ 160
    → tx.nonce < 2 ^ 64
    → tx.code_hash < 2 ^ 256
    → tx.max_fee < 2 ^ 64
    → tx.gas_limit < 2 ^ 64
    → encode_deploy tx ≡ ok bs
    → decode_deploy (bs ++ rest) ≡ ok (tx, rest)
unfolding encode_deploy decode_deploy
decode_deploy-encode_deploy tx bs rest hs hn hc hm hg =
    (Inverts-cons _ _ (Inverts-uint 20 tx.sender hs) (
        Inverts-cons _ _ (Inverts-uint 8 tx.nonce hn) (
          Inverts-cons _ _ (Inverts-var_bytes tx.wasm_code) (
            Inverts-cons _ _ (Inverts-uint 32 tx.code_hash hc) (
              Inverts-cons _ _ (Inverts-uint 8 tx.max_fee hm) (
                Inverts-cons _ _ (Inverts-uint 8 tx.gas_limit hg) (
                  Inverts-cons _ _ (Inverts-short_signature tx.signature) (Inverts-nil tx)))))))).at
      bs rest
