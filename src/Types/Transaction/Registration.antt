-- ===== src/Types/Transaction/Registration.antt =====
-- types/transaction.go: the validator registration message, its binary form and the transaction
-- that carries it.
use dsn.Prelude.{
  ℕ, ◌^◌, ◌<◌, ◌≡◌, [], ◌∷◌, length, ◌==◌, not, if◌then◌else◌, arith, Option, none, some, inl, inr,
}
use mathlib.Core.List.{append-nil}
use mathlib.Core.Path.{subst}
use dsn.Error.{Result, Result-cases, ok, err, invalid_encoding, ◌>>=◌ as bind}
use dsn.Bytes.{Bytes, Reader, read_uint, read_full, write_uint, write_bytes, writes}
use dsn.Bytes.Do.{◌>>=◌, pure, Inverts, Inverts-cons, Inverts-nil}
use dsn.Bytes.RoundTrip.{Inverts-uint, Inverts-full}
use dsn.Types.Transaction.{Transaction, validator_registration}

pub record RegistrationMsg : Type 0 where
  pub address : ℕ
  pub pub_key : Bytes
  pub stake : ℕ
  pub commission : ℕ

-- The key is written where its length allows.
unfoldable pub write_pub_key : Bytes → Result Bytes
write_pub_key key = if not (length key == 32) then err invalid_encoding else write_bytes key

unfoldable pub encode_registration : RegistrationMsg → Result Bytes
encode_registration m = writes (
    write_uint 20 m.address
    ∷ write_pub_key m.pub_key
    ∷ write_uint 8 m.stake
    ∷ write_uint 8 m.commission
    ∷ [])

unfoldable pub decode_registration : Reader RegistrationMsg
decode_registration = do
  address ← read_uint 20
  pub_key ← read_full 32
  stake ← read_uint 8
  commission ← read_uint 8
  pure (record { address = address; pub_key = pub_key; stake = stake; commission = commission })

-- The message that a registration transaction carries; `none` for another type of transaction.
unfoldable pub registration : Transaction → Result (Option RegistrationMsg)
registration tx =
    if not (tx.tx_type == validator_registration)
    then ok none
    else bind (decode_registration tx.payload) (λ (m, rest). ok (some m))

-- NewValidatorRegistrationTx. The caller fills in the intent id and the signature later.
unfoldable pub new_registration_tx : ℕ → ℕ → RegistrationMsg → ℕ → ℕ → ℕ → Result Transaction
new_registration_tx sender nonce msg max_fee timestamp chain_id =
    bind (encode_registration msg) (λ payload. ok (record {
      version = 1;
      chain_id = chain_id;
      intent_id = 0;
      sender = sender;
      nonce = nonce;
      payload = payload;
      constraints = [];
      max_fee = max_fee;
      gas_limit = 50000;
      timestamp = timestamp;
      signature = [];
      tx_type = validator_registration;
    }))

Inverts-pub_key : (key : Bytes) → Inverts (write_pub_key key) (read_full 32) key
unfolding write_pub_key
Inverts-pub_key key = record {
  at = λ bs rest e. (Inverts-full 32 key (ground arith)).at bs rest (ground arith);
}

Inverts-registration :
    (m : RegistrationMsg)
    → m.address < 2 ^ 160
    → m.stake < 2 ^ 64
    → m.commission < 2 ^ 64
    → Inverts (encode_registration m) decode_registration m
unfolding encode_registration decode_registration
Inverts-registration m ha hs hc = Inverts-cons _ _ (Inverts-uint 20 m.address ha) (
    Inverts-cons _ _ (Inverts-pub_key m.pub_key) (
      Inverts-cons _ _ (Inverts-uint 8 m.stake hs)
        (Inverts-cons _ _ (Inverts-uint 8 m.commission hc) (Inverts-nil m))))

decode_registration-encode :
    (m : RegistrationMsg) (bs : Bytes)
    → m.address < 2 ^ 160
    → m.stake < 2 ^ 64
    → m.commission < 2 ^ 64
    → encode_registration m ≡ ok bs
    → decode_registration bs ≡ ok (m, [])
decode_registration-encode m bs ha hs hc e =
    subst (λ (b : Bytes). decode_registration b ≡ ok (m, [])) (append-nil bs)
      ((Inverts-registration m ha hs hc).at bs [] e)

-- A registration transaction that is built, from a message whose numbers fit their types,
-- carries that message.
pub registration-new_registration_tx :
    (sender nonce max_fee timestamp chain_id : ℕ) (m : RegistrationMsg) (tx : Transaction)
    → m.address < 2 ^ 160
    → m.stake < 2 ^ 64
    → m.commission < 2 ^ 64
    → new_registration_tx sender nonce m max_fee timestamp chain_id ≡ ok tx
    → registration tx ≡ ok (some m)
unfolding new_registration_tx registration
registration-new_registration_tx sender nonce max_fee timestamp chain_id m tx ha hs hc e =
    elim (Result-cases (encode_registration m)) [
      | inl (bs, eb) ↦ ground (arith, decode_registration-encode m bs ha hs hc eb)
      | inr (x, ex) ↦ ground arith
    ]
