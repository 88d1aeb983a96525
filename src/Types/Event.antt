-- ===== src/Types/Event.antt =====
-- types/event.go: the events that contracts emit, and their binary form. A topic is its bytes.
use dsn.Prelude.{ℕ, ◌^◌, ◌<◌, ◌≡◌, [], ◌∷◌, ◌++◌}
use dsn.Error.{Result, ok}
use dsn.Bytes.{Bytes, Reader, read_uint, read_var_bytes, write_uint, write_var_bytes, writes}
use dsn.Bytes.Do.{◌>>=◌, pure, Inverts-cons, Inverts-nil}
use dsn.Bytes.RoundTrip.{Inverts-uint, Inverts-var_bytes}

pub record Event : Type 0 where
  pub contract_id : ℕ
  pub topic : Bytes
  pub payload : Bytes
  pub block_height : ℕ
  pub tx_index : ℕ

unfoldable pub encode_event : Event → Result Bytes
encode_event e = writes (
    write_uint 32 e.contract_id
    ∷ write_var_bytes e.topic
    ∷ write_var_bytes e.payload
    ∷ write_uint 8 e.block_height
    ∷ write_uint 4 e.tx_index
    ∷ [])

unfoldable pub decode_event : Reader Event
decode_event = do
  contract_id ← read_uint 32
  topic ← read_var_bytes
  payload ← read_var_bytes
  block_height ← read_uint 8
  tx_index ← read_uint 4
  pure (record {
    contract_id = contract_id;
    topic = topic;
    payload = payload;
    block_height = block_height;
    tx_index = tx_index;
  })

-- An event whose fields fit their types and whose encoding succeeds is decoded from it, whatever
-- follows.
decode_event-encode_event :
    (e : Event) (bs rest : Bytes)
    → e.contract_id < 2 ^ 256
    → e.block_height < 2 ^ 64
    → e.tx_index < 2 ^ 32
    → encode_event e ≡ ok bs
    → decode_event (bs ++ rest) ≡ ok (e, rest)
unfolding encode_event decode_event
decode_event-encode_event e bs rest hc hb ht =
    (Inverts-cons _ _ (Inverts-uint 32 e.contract_id hc) (
        Inverts-cons _ _ (Inverts-var_bytes e.topic) (
          Inverts-cons _ _ (Inverts-var_bytes e.payload) (
            Inverts-cons _ _ (Inverts-uint 8 e.block_height hb)
              (Inverts-cons _ _ (Inverts-uint 4 e.tx_index ht) (Inverts-nil e)))))).at
      bs rest
