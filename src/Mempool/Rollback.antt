-- ===== src/Mempool/Rollback.antt =====
-- What Submit leaves in the pool where the database fails.
use dsn.Prelude.{
  ℕ, ◌^◌, ◌<◌, ◌≡◌, ◌≢◌, List, [], ◌∷◌, ◌++◌, Bool-cases, ap, ◌∙◌, sym, none, some, ◌==◌, arith,
  ==_iff, inl, inr,
}
use dsn.Prelude.Map.{lookup, insert, nat_eq, lookup-insert, remove-insert}
use dsn.Error.{Error, Result, ok, err, >>-eq_ok, ◌>>=◌ as bind}
use dsn.Bytes.{Bytes}
use dsn.Types.Transaction.{Transaction, validate}
use dsn.Types.Transaction.Codec.{encode}
use dsn.Mempool.Index.{index_insert, index_remove}
use dsn.Mempool.Pool.{PendingTx, Mempool, new_mempool, drop_tx, get}
use dsn.Mempool.Submit.{Context, known_nonce, check_submit, add_tx, answer, persist, admit, submit}
use dsn.Mempool.Kept.{find, IsPool, Reaches, Reaches-IsPool, check_submit_lem, submit-cases}
use dsn.Mempool.Refused.{expected_known}

validate-nonce : (now : ℕ) (tx : Transaction) → validate now tx ≡ ok tt → tx.nonce ≢ 0
unfolding validate
validate-nonce now tx h = λ z. ground (arith, h, z)

checked-nonce :
    (x : Context) (tx : Transaction) (mp : Mempool) → check_submit x tx mp ≡ ok tt → tx.nonce ≢ 0
unfolding check_submit
checked-nonce x tx mp h = validate-nonce x.unix tx (>>-eq_ok (validate x.unix tx) _ h).0

-- The pool with the transaction's nonce as its sender's last, and otherwise the same.
abbrev pub with_nonce : Transaction → Mempool → Mempool
with_nonce tx mp = record mp { next_nonce = insert tx.sender tx.nonce mp.next_nonce }

get-none : (id : ℕ) (mp : Mempool) → lookup id mp.txs ≡ none → get id mp ≡ none
unfolding get
get-none id mp h = ground (arith, h)

-- Removing the entry that was appended last.
index_remove-insert :
    (tx : Transaction) (es : List Transaction)
    → find tx.intent_id es ≡ none
    → index_remove tx.intent_id (es ++ tx ∷ []) ≡ es
unfolding index_remove find
index_remove-insert tx [] h = ground (arith, ==_iff tx.intent_id tx.intent_id)
index_remove-insert tx (e ∷ es) h = elim (Bool-cases (e.intent_id == tx.intent_id)) [
  | inl q ↦ ground (arith, h, q)
  | inr q ↦ ground (arith, h, q, index_remove-insert tx es (ground (arith, h, q)))
]

taken_out :
    (x : Context) (put : ℕ → Bytes → Result (Unit {0})) (tx : Transaction) (mp : Mempool)
    (e : Error)
    → check_submit x tx mp ≡ ok tt
    → x.put ≡ some put
    → bind (encode tx) (put tx.intent_id) ≡ err e
    → submit x tx mp ≡ (err e, drop_tx tx.intent_id (add_tx x.now tx mp))
unfolding submit admit persist answer
taken_out x put tx mp e hc hp he =
    ap (λ r. admit x tx r mp) hc ∙ ground (arith, hp, ap (λ a. answer tx a (add_tx x.now tx mp)) he)

-- Adding a transaction whose id is not in a pool and taking it out again leaves its nonce.
taken_out_lem :
    (now : ℕ) (tx : Transaction) (mp : Mempool)
    → IsPool mp
    → lookup tx.intent_id mp.txs ≡ none
    → drop_tx tx.intent_id (add_tx now tx mp) ≡ with_nonce tx mp
unfolding drop_tx add_tx index_insert
taken_out_lem now tx mp w new =
    let pt : PendingTx = record { tx = tx; submitted = now } in
    let absent : find tx.intent_id mp.index ≡ none =
      w.found tx.intent_id ∙ get-none tx.intent_id mp new in
    ground (arith, remove-insert tx.intent_id pt mp.txs new, index_remove-insert tx mp.index absent)

with_nonce-known :
    (tx : Transaction) (mp : Mempool) → known_nonce tx.sender (with_nonce tx mp) ≡ tx.nonce
with_nonce-known tx mp =
    ground
      (arith, lookup-insert tx.sender tx.sender tx.nonce mp.next_nonce, ==_iff tx.sender tx.sender)

-- A pool whose last nonce of the sender is the transaction's refuses it.
refused :
    (y : Context) (tx : Transaction) (mp : Mempool)
    → tx.nonce < 2 ^ 64
    → tx.nonce ≢ 0
    → known_nonce tx.sender mp ≡ tx.nonce
    → (submit y tx mp).0 ≢ ok tt
refused y tx mp hn hz hk = λ h. elim (submit-cases y tx mp) [
  | inr (e, _, q) ↦ ground (arith, h, q)
  | inl (c, _) ↦
      let (_, _, (n, q, follows)) = check_submit_lem y tx mp c in
      let known = expected_known y tx mp (λ z. hz (sym hk ∙ z)) in
      ground (arith, q, known, hk, follows, hn)
]

-- A transaction that passes the checks of a pool that its operations lead to, and that the database
-- refuses, leaves the pool exactly as it was, but for the sender's last nonce, which is the
-- transaction's: submitted again it is refused, in every context, if its nonce fits a uint64.
pub submit-refused_again :
    (max_size ttl : ℕ) (x : Context) (put : ℕ → Bytes → Result (Unit {0})) (tx : Transaction)
    (mp : Mempool) (e : Error)
    → Reaches (new_mempool max_size ttl) mp
    → tx.nonce < 2 ^ 64
    → check_submit x tx mp ≡ ok tt
    → x.put ≡ some put
    → bind (encode tx) (put tx.intent_id) ≡ err e
    → (submit x tx mp ≡ (err e, with_nonce tx mp))
      × ((y : Context) → (submit y tx (with_nonce tx mp)).0 ≢ ok tt)
submit-refused_again max_size ttl x put tx mp e reach hn hc hp he =
    let (_, new, _) = check_submit_lem x tx mp hc in
    let same = taken_out_lem x.now tx mp (Reaches-IsPool max_size ttl mp reach) new in
    (
      taken_out x put tx mp e hc hp he ∙ ap (λ (r : Mempool). (err e, r)) same,
      λ y. refused y tx (with_nonce tx mp) hn (checked-nonce x tx mp hc) (with_nonce-known tx mp),
    )
