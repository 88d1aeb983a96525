-- ===== src/Tests/Pool.antt =====
-- A small pool: what it admits, refuses and offers.
use dsn.Prelude.{
  ℕ, ◌≡◌, ◌≢◌, ◌<◌, refl, [], ◌∷◌, Option, some, none, true, false, if◌then◌else◌, ◌==◌, arith,
}
use dsn.Prelude.Sort.{IsPairwise, IsOrdered}
use dsn.Error.{Result, ok, err, insufficient_balance, ◌>>=◌ as bind}
use dsn.Bytes.{Bytes}
use dsn.Types.Transaction.{Transaction}
use dsn.Types.Transaction.Codec.{encode}
use dsn.Mempool.Index.{tx_precedes}
use dsn.Mempool.Pool.{Mempool, new_mempool, drop_tx, pending_txs}
use dsn.Mempool.Submit.{Context, known_nonce, check_submit, submit}
use dsn.Mempool.Kept.{Reaches, here, submitted, removed, find, Apart, IsPool, Reaches-IsPool}
use dsn.Mempool.Offered.{live, pending_txs-live}
use dsn.Mempool.Refused.{IsAdded, submit-IsAdded, submit_unverified}
use dsn.Mempool.Rollback.{submit-refused_again, with_nonce}
use dsn.Tests.Accounts.{account, payment}

abbrev context : Option (ℕ → Bytes → Result (Unit {0})) → Context
context put = record {
  crypto = record { sha256 = λ _. 1; verify = λ _ _ _. true };
  get_account = λ k. ok (account k 500 0);
  unix = 1000;
  now = 70;
  put = put;
}

abbrev empty : Mempool
empty = new_mempool 2 100

-- The first payment of the account 3, and its second, which pays a higher fee.
abbrev first : Transaction
first = payment 1

abbrev second : Transaction
second = record (payment 2) { intent_id = 12; max_fee = 25 }

abbrev with_first : Mempool
with_first = (submit (context none) first empty).1

abbrev with_both : Mempool
with_both = (submit (context none) second with_first).1

admits_first : submit (context none) first empty ≡ (ok tt, with_first)
unfolding submit dsn.Bytes.put_be dsn.Types.Timestamp.validate_timestamp new_mempool
    dsn.Prelude.Map.lookup
admits_first = refl

admits_second : submit (context none) second with_first ≡ (ok tt, with_both)
unfolding submit dsn.Bytes.put_be dsn.Types.Timestamp.validate_timestamp new_mempool
    dsn.Prelude.Map.lookup dsn.Prelude.Map.insert dsn.Prelude.Map.remove
admits_second = refl

offers_higher_fee : (pending_txs 90 with_both).0 ≡ second ∷ first ∷ []
unfolding pending_txs submit dsn.Bytes.put_be dsn.Types.Timestamp.validate_timestamp new_mempool
    dsn.Prelude.Map.lookup dsn.Prelude.Map.insert dsn.Prelude.Map.remove
offers_higher_fee = refl

offers_nothing_late : (pending_txs 171 with_both).0 ≡ []
unfolding pending_txs submit dsn.Bytes.put_be dsn.Types.Timestamp.validate_timestamp new_mempool
    dsn.Prelude.Map.lookup dsn.Prelude.Map.insert dsn.Prelude.Map.remove
offers_nothing_late = refl

Reaches-with_both : Reaches empty with_both
Reaches-with_both =
    submitted (context none) second with_first (submitted (context none) first empty here)

Reaches-IsPool_example : IsPool (drop_tx 11 with_both)
Reaches-IsPool_example =
    Reaches-IsPool 2 100 (drop_tx 11 with_both) (removed 11 with_both Reaches-with_both)

pending_txs-live_example :
    ((id : ℕ) → find id (pending_txs 90 with_both).0 ≡ live 90 id with_both)
    × IsPairwise Apart (pending_txs 90 with_both).0
    × IsOrdered tx_precedes (pending_txs 90 with_both).0
pending_txs-live_example = pending_txs-live 2 100 90 with_both Reaches-with_both

submit-IsAdded_example : IsAdded (context none) second with_first with_both
submit-IsAdded_example = submit-IsAdded (context none) second with_first with_both admits_second

-- The second payment needs no signature.
known_first : known_nonce 3 with_first ≡ 1
unfolding dsn.Prelude.Map.lookup submit dsn.Bytes.put_be dsn.Types.Timestamp.validate_timestamp
    new_mempool dsn.Prelude.Map.insert
known_first = refl

known : known_nonce 3 with_first ≢ 0
known = ground (arith, known_first)

submit_unverified_example :
    submit
      (record (context none) {
        crypto = record { sha256 = λ _. 1; verify = λ _ _ _. false };
        get_account = λ _. err insufficient_balance;
      })
      second
      with_first
    ≡ submit (context none) second with_first
submit_unverified_example =
    submit_unverified (context none) (record { sha256 = λ _. 1; verify = λ _ _ _. false })
      (λ _. err insufficient_balance) second with_first known

-- A database that refuses every write.
abbrev broken : ℕ → Bytes → Result (Unit {0})
broken _ _ = err insufficient_balance

passes : check_submit (context (some broken)) second with_first ≡ ok tt
unfolding check_submit submit dsn.Bytes.put_be dsn.Types.Timestamp.validate_timestamp new_mempool
    dsn.Prelude.Map.lookup dsn.Prelude.Map.insert dsn.Prelude.Map.remove
passes = refl

refuses : bind (encode second) (broken 12) ≡ err insufficient_balance
unfolding encode dsn.Bytes.writes dsn.Bytes.write_uint dsn.Bytes.write_var_bytes
    dsn.Types.Signature.write_short_signature
refuses = refl

submit-refused_again_example :
    (submit (context (some broken)) second with_first
      ≡ (err insufficient_balance, with_nonce second with_first))
    × ((y : Context) → (submit y second (with_nonce second with_first)).0 ≢ ok tt)
submit-refused_again_example =
    submit-refused_again 2 100 (context (some broken)) broken second with_first insufficient_balance
      (submitted (context none) first empty here) (omega arith) passes refl refuses
