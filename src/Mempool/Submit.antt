-- ===== src/Mempool/Submit.antt =====
-- mempool/pool.go: Submit. The accounts, the two readings of the clock (Validate's, and that of
-- the time to live) and the database's write are arguments; a pool without a database has none.
-- The transaction is not nil.
use dsn.Prelude.{
  ℕ, ◌+◌, Bool, Option, none, some, length, ltb, leb, ◌==◌, not, if◌then◌else◌, wrap64, false, true,
}
use dsn.Prelude.Map.{lookup, insert, nat_eq}
use dsn.Error.{
  Result, ok, err, fail_if, nil_message, invalid_pub_key, commission_too_high, invalid_signature,
  max_fee_exceeded, nonce_mismatch, mempool_full, already_in_pool, pool_insufficient_stake, panic,
  ◌>>=◌ as bind, ◌>>◌ as and_then,
}
use dsn.Exec.{Exec}
use dsn.Bytes.{Bytes, be_value}
use dsn.Types.Amount.{Amount, add}
use dsn.Types.Vote.{Crypto}
use dsn.Types.Transaction.{
  Transaction, validate, deploy_contract, call_contract, validator_registration,
}
use dsn.Types.Transaction.Codec.{encode}
use dsn.Types.Transaction.Registration.{RegistrationMsg, registration}
use dsn.Types.Contract.Deploy.{decode_deploy, validate_deploy}
use dsn.Types.Contract.Call.{decode_call, validate_call}
use dsn.State.Account.{Account}
use dsn.Mempool.Index.{index_insert}
use dsn.Mempool.Pool.{Mempool, drop_tx}

-- What Submit is given: the accounts, the readings of the clock, and the write to the database.
pub record Context : Type 0 where
  pub crypto : Crypto
  pub get_account : ℕ → Result Account
  pub unix : ℕ
  pub now : ℕ
  pub put : Option (ℕ → Bytes → Result (Unit {0}))

unfoldable pub check_message : RegistrationMsg → Result (Unit {0})
check_message msg = and_then (fail_if (ltb msg.stake 100000) pool_insufficient_stake) (
    and_then (fail_if (not (length msg.pub_key == 32)) invalid_pub_key)
      (fail_if (ltb 10000 msg.commission) commission_too_high))

-- The checks of what the transaction carries, by its type.
unfoldable pub check_payload : Transaction → Result (Unit {0})
unfolding check_message decode_deploy validate_deploy decode_call validate_call registration
check_payload tx =
    if tx.tx_type == deploy_contract
    then bind (decode_deploy tx.payload) (λ p. validate_deploy p.0)
    else if tx.tx_type == call_contract
    then bind (decode_call tx.payload) (λ p. validate_call p.0)
    else if tx.tx_type == validator_registration
    then bind (registration tx)
        (λ m. elim m [ none ↦ err nil_message | some msg ↦ check_message msg ])
    else ok tt

-- `regMsg, _ := tx.ValidatorRegistration()`
abbrev pub carried : Transaction → Option RegistrationMsg
carried tx = elim (registration tx) [ err _ ↦ none | ok m ↦ m ]

-- Whether the signature of a sender's first transaction passes.
unfoldable pub is_signed : Crypto → Account → Transaction → Bool
unfolding registration
is_signed c acc tx =
    if tx.tx_type == validator_registration
    then elim (carried tx) [
      | none ↦ true
      | some msg ↦
          if length msg.pub_key == 32
          then c.verify (be_value msg.pub_key) tx.intent_id tx.signature
          else true
    ]
    else c.verify acc.public_key tx.intent_id tx.signature

-- The balance that a sender's first transaction needs. An error of Add would leave an amount
-- without a value, which Cmp dereferences.
unfoldable pub required : Transaction → Result Amount
unfolding registration add
required tx =
    if tx.tx_type == validator_registration
    then elim (carried tx) [
      | none ↦ ok tx.max_fee
      | some msg ↦ elim (add tx.max_fee msg.stake) [ ok a ↦ ok a | err _ ↦ err panic ]
    ]
    else ok tx.max_fee

-- The checks of a sender's first transaction, which give the nonce to follow.
unfoldable pub check_first : Context → Transaction → Result ℕ
unfolding is_signed required
check_first x tx = bind (x.get_account tx.sender) (λ acc.
    and_then (fail_if (not (is_signed x.crypto acc tx)) invalid_signature) (
      bind (required tx) (λ need.
        and_then
          (fail_if (ltb acc.balance need) (
            if tx.tx_type == validator_registration
            then pool_insufficient_stake
            else max_fee_exceeded))
          (ok acc.nonce))))

-- expectedNonce: zero stands for a sender without a nonce yet.
abbrev pub known_nonce : ℕ → Mempool → ℕ
known_nonce sender mp = elim (lookup sender mp.next_nonce) [ none ↦ 0 | some n ↦ n ]

unfoldable pub expected_nonce : Context → Transaction → Mempool → Result ℕ
unfolding check_first
expected_nonce x tx mp =
    let n = known_nonce tx.sender mp in if n == 0 then check_first x tx else ok n

-- What Submit checks before it changes the pool.
unfoldable pub check_submit : Context → Transaction → Mempool → Result (Unit {0})
unfolding validate check_payload expected_nonce
check_submit x tx mp = and_then (validate x.unix tx) (
    and_then (check_payload tx) (
      and_then (fail_if (leb mp.max_size (length mp.txs)) mempool_full) (
        and_then
          (fail_if (elim (lookup tx.intent_id mp.txs) [ none ↦ false | some _ ↦ true ])
            already_in_pool)
          (bind (expected_nonce x tx mp)
            (λ n. fail_if (not (tx.nonce == wrap64 (n + 1))) nonce_mismatch)))))

-- The pool with the transaction, and its nonce as the sender's last.
unfoldable pub add_tx : ℕ → Transaction → Mempool → Mempool
unfolding index_insert
add_tx now tx mp = record mp {
  txs = insert tx.intent_id (record { tx = tx; submitted = now }) mp.txs;
  index = index_insert tx mp.index;
  next_nonce = insert tx.sender tx.nonce mp.next_nonce;
}

-- What the database's answer leaves of the pool: an error takes the transaction out again, but
-- not its nonce.
unfoldable pub answer : Transaction → Result (Unit {0}) → Exec Mempool (Unit {0})
unfolding drop_tx
answer tx (ok _) mp = (ok tt, mp)
answer tx (err e) mp = (err e, drop_tx tx.intent_id mp)

unfoldable pub persist : Context → Transaction → Exec Mempool (Unit {0})
unfolding encode answer
persist x tx mp = elim x.put [
  | none ↦ (ok tt, mp)
  | some put ↦ answer tx (bind (encode tx) (put tx.intent_id)) mp
]

-- Submit, once the checks are made.
unfoldable pub admit : Context → Transaction → Result (Unit {0}) → Exec Mempool (Unit {0})
unfolding add_tx persist
admit x tx (err e) mp = (err e, mp)
admit x tx (ok _) mp = persist x tx (add_tx x.now tx mp)

unfoldable pub submit : Context → Transaction → Exec Mempool (Unit {0})
unfolding check_submit admit
submit x tx mp = admit x tx (check_submit x tx mp) mp
