-- ===== src/Types/Contract/Meta.antt =====
-- types/contract_meta.go: the metadata of a contract, with its variable-length block height.
pub mod Height
use dsn.Prelude.{
  ℕ, ◌*◌, ◌^◌, ◌<◌, ◌≡◌, ◌≢◌, [], ◌∷◌, ◌++◌, length, ◌==◌, ltb, leb, if◌then◌else◌, arith, refl,
  ◌∙◌, suc,
}
use dsn.Error.{Result, ok, err, ◌>>=◌ as bind}
use dsn.Bytes.{
  Bytes, Reader, put_be, be_value, read_uint, write_uint, write_var_bytes, write_bytes, writes,
  max_var_bytes_length,
}
use dsn.Bytes.Do.{◌>>=◌, pure, Inverts, Inverts-cons, Inverts-nil}
use dsn.Bytes.RoundTrip.{Inverts-uint, read_uint-put_be, length-put_be}
use mathlib.Core.List.{append_assoc}

pub record ContractMetadata : Type 0 where
  pub contract_id : ℕ
  pub code_hash : ℕ
  pub deployer : ℕ
  pub block_height : ℕ

-- writeVarUint64: each form goes through writeVarBytes, which puts a length of four bytes before it.
unfoldable pub write_var_uint64 : ℕ → Result Bytes
write_var_uint64 v =
    if ltb v 0xFD
    then write_var_bytes (put_be 1 v)
    else if leb v 0xFFFF
    then write_var_bytes (0xFD ∷ put_be 2 v)
    else if leb v 0xFFFFFFFF
    then write_var_bytes (0xFE ∷ put_be 4 v)
    else write_var_bytes (0xFF ∷ put_be 8 v)

-- The switch of readVarUint64 on the first byte.
unfoldable pub read_var_uint64_rest : ℕ → Reader ℕ
read_var_uint64_rest first =
    if first == 0xFD
    then read_uint 2
    else if first == 0xFE
    then read_uint 4
    else if first == 0xFF
    then read_uint 8
    else pure first

unfoldable pub read_var_uint64 : Reader ℕ
read_var_uint64 = do first ← read_uint 1; read_var_uint64_rest first

unfoldable pub encode_meta : ContractMetadata → Result Bytes
encode_meta m = writes (
    write_uint 32 m.contract_id
    ∷ write_uint 32 m.code_hash
    ∷ write_uint 20 m.deployer
    ∷ write_var_uint64 m.block_height
    ∷ [])

unfoldable pub decode_meta : Reader ContractMetadata
decode_meta = do
  contract_id ← read_uint 32
  code_hash ← read_uint 32
  deployer ← read_uint 20
  block_height ← read_var_uint64
  pure (record {
    contract_id = contract_id;
    code_hash = code_hash;
    deployer = deployer;
    block_height = block_height;
  })
