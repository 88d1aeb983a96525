-- ===== src/Types/Transaction/RoundTrip.antt =====
-- Decode inverts Encode on transactions.
use dsn.Prelude.{ℕ, ◌^◌, ◌<◌, ◌≡◌, ◌++◌, arith}
use dsn.Error.{ok}
use dsn.Bytes.{Bytes, write_uint}
use dsn.Bytes.Do.{Inverts, Inverts-cons, Inverts-nil}
use dsn.Bytes.RoundTrip.{Inverts-uint, Inverts-var_bytes}
use dsn.Types.Signature.{Inverts-short_signature}
use dsn.Types.Transaction.{Transaction, IsSized}
use dsn.Types.Transaction.Codec.{encode, decode, read_tx_type}

Inverts-tx_type : (t : ℕ) → t < 2 ^ 8 → Inverts (write_uint 1 t) read_tx_type t
unfolding read_tx_type
Inverts-tx_type t h = record { at = λ bs rest e. ground (arith, (Inverts-uint 1 t h).at bs rest e) }

Inverts-transaction : (tx : Transaction) → IsSized tx → Inverts (encode tx) decode tx
unfolding encode decode
Inverts-transaction tx z = Inverts-cons _ _ (Inverts-uint 2 tx.version z.version) (
    Inverts-cons _ _ (Inverts-uint 4 tx.chain_id z.chain_id) (
      Inverts-cons _ _ (Inverts-uint 32 tx.intent_id z.intent_id) (
        Inverts-cons _ _ (Inverts-uint 20 tx.sender z.sender) (
          Inverts-cons _ _ (Inverts-uint 8 tx.nonce z.nonce) (
            Inverts-cons _ _ (Inverts-var_bytes tx.payload) (
              Inverts-cons _ _ (Inverts-var_bytes tx.constraints) (
                Inverts-cons _ _ (Inverts-uint 8 tx.max_fee z.max_fee) (
                  Inverts-cons _ _ (Inverts-uint 8 tx.gas_limit z.gas_limit) (
                    Inverts-cons _ _ (Inverts-uint 8 tx.timestamp z.timestamp) (
                      Inverts-cons _ _ (Inverts-short_signature tx.signature) (
                        Inverts-cons _ _ (Inverts-tx_type tx.tx_type z.tx_type)
                          (Inverts-nil tx))))))))))))

-- A transaction whose fields fit their types and whose encoding succeeds is decoded from it,
-- whatever follows.
pub decode-encode :
    (tx : Transaction) (bs rest : Bytes)
    → IsSized tx
    → encode tx ≡ ok bs
    → decode (bs ++ rest) ≡ ok (tx, rest)
decode-encode tx bs rest z e = (Inverts-transaction tx z).at bs rest e
