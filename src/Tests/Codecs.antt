-- ===== src/Tests/Codecs.antt =====
-- The codecs of transactions, commit proofs and metadata on small values.
use dsn.Prelude.{◌≡◌, refl, [], ◌∷◌, ◌++◌, arith}
use dsn.Tests.Validators.{bytes_of}
use dsn.Error.{ok}
use dsn.Bytes.{Bytes, write_uint, writes, write_var_bytes, put_be}
use dsn.Types.Signature.{write_signature, write_short_signature}
use dsn.Types.Transaction.{Transaction}
use dsn.Types.Transaction.Codec.{encode, decode}
use dsn.Types.Transaction.RoundTrip.{decode-encode}
use dsn.Types.Vote.{Vote, encode_vote}
use dsn.Types.Commit.{CommitProof, encode_proof, decode_proof, decode_proof-encode_proof}
use dsn.Types.Contract.Meta.{ContractMetadata, encode_meta, decode_meta, write_var_uint64}
use dsn.Types.Contract.Meta.Height.{decode_meta-encode_meta}

abbrev tx : Transaction
tx = record {
  version = 1;
  chain_id = 7;
  intent_id = 11;
  sender = 3;
  nonce = 1;
  payload = 5 ∷ 6 ∷ [];
  constraints = [];
  max_fee = 10;
  gas_limit = 0;
  timestamp = 1000;
  signature = 9 ∷ [];
  tx_type = 0;
}

decode-encode_example : decode (bytes_of (encode tx) ++ 1 ∷ []) ≡ ok (tx, 1 ∷ [])
unfolding encode writes write_uint write_var_bytes write_short_signature
decode-encode_example =
    decode-encode tx (bytes_of (encode tx)) (1 ∷ [])
      (record {
        version = omega arith;
        chain_id = omega arith;
        intent_id = omega arith;
        sender = omega arith;
        nonce = omega arith;
        max_fee = omega arith;
        gas_limit = omega arith;
        timestamp = omega arith;
        tx_type = omega arith;
      })
      refl

abbrev vote : Vote
vote = record {
  vote_type = 2;
  height = 5;
  round = 0;
  block_hash = 77;
  validator = 3;
  signature = 4 ∷ [];
}

abbrev proof : CommitProof
proof = record {
  height = 5;
  block_hash = 77;
  precommits = vote ∷ [];
  total_power = 3;
  signed_power = 2;
  set_hash = 8;
}

decode_proof-encode_proof_example :
    decode_proof (bytes_of (encode_proof proof) ++ []) ≡ ok (proof, [])
unfolding encode_proof writes write_uint encode_vote write_signature
decode_proof-encode_proof_example =
    decode_proof-encode_proof proof (bytes_of (encode_proof proof)) []
      (record {
        height = omega arith;
        block_hash = omega arith;
        precommits = (
          record {
            vote_type = omega arith;
            height = omega arith;
            round = omega arith;
            block_hash = omega arith;
            validator = omega arith;
            signature = omega arith;
          },
          tt,
        );
        count = omega arith;
        total_power = omega arith;
        signed_power = omega arith;
        set_hash = omega arith;
      })
      refl

abbrev metadata : ContractMetadata
metadata = record { contract_id = 9; code_hash = 44; deployer = 3; block_height = 258 }

decode_meta-encode_meta_example :
    (left : Bytes) × (decode_meta (bytes_of (encode_meta metadata) ++ [])
      ≡ ok (record metadata { block_height = 0 }, left))
unfolding encode_meta writes write_uint write_var_uint64 write_var_bytes put_be
decode_meta-encode_meta_example =
    decode_meta-encode_meta metadata (bytes_of (encode_meta metadata)) [] (omega arith)
      (omega arith) (omega arith) refl
