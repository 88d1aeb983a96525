-- ===== src/Mempool/Kept.antt =====
-- What every pool that its operations lead to has: its size, and an index that agrees with it.
use dsn.Prelude.{
  ℕ, ◌+◌, ◌-◌, wrap64, ltb, leb, ◌⊎◌, ◌≤◌, ◌<◌, ◌≡◌, refl, ap, List, [], ◌∷◌, ◌++◌, Option, none,
  some, true, false, ◌==◌, length, if◌then◌else◌, arith, All, ==_iff, Bool-cases, Option-cases, inl,
  inr,
}
use mathlib.Core.Path.{subst⁻¹}
use dsn.Prelude.Map.{
  Map, lookup, nat_eq, lookup-insert, lookup-remove, lookup-empty, lookup-absent, insert-absent,
  length-remove_le, IsKeyed, remove-IsKeyed,
}
use dsn.Prelude.Sort.{IsPairwise, All-mono}
use dsn.Error.{
  Error, ok, err, fail_if, mempool_full, already_in_pool, Result-cases, >>-eq_ok, ◌>>=◌ as bind,
}
use dsn.Types.Transaction.{Transaction, validate}
use dsn.Types.Transaction.Codec.{encode}
use dsn.Mempool.Index.{index_insert, index_remove}
use dsn.Mempool.Pool.{
  PendingTx, Mempool, new_mempool, drop_tx, get, expire_each, expire, pending_txs,
}
use dsn.Mempool.Submit.{
  Context, check_payload, expected_nonce, check_submit, add_tx, answer, persist, admit, submit,
}

-- The states that a pool reaches, whatever is submitted, removed and asked for.
pub data Reaches (start : Mempool) : Mempool → Type 0 where
  here : Reaches start start
  submitted :
      (x : Context) (tx : Transaction) (mp : Mempool)
      → Reaches start mp
      → Reaches start (submit x tx mp).1
  removed : (id : ℕ) (mp : Mempool) → Reaches start mp → Reaches start (drop_tx id mp)
  offered : (now : ℕ) (mp : Mempool) → Reaches start mp → Reaches start (pending_txs now mp).1

-- The first entry with an id.
unfoldable pub find : ℕ → List Transaction → Option Transaction
find id [] = none
find id (e ∷ es) = if e.intent_id == id then some e else find id es

abbrev pub Apart : Transaction → Transaction → Type 0
Apart a b = (a.intent_id == b.intent_id) ≡ false

-- The pool holds at most its maximum, and its index lists exactly what it holds, once.
pub record IsPool (mp : Mempool) : Type 0 where
  pub size : length mp.txs ≤ mp.max_size
  pub keyed : IsKeyed mp.txs
  pub apart : IsPairwise Apart mp.index
  pub found : (id : ℕ) → find id mp.index ≡ get id mp

All-index_remove :
    (P : Transaction → Type 0) (id : ℕ) (es : List Transaction)
    → All P es
    → All P (index_remove id es)
unfolding index_remove
All-index_remove P id [] h = tt
All-index_remove P id (e ∷ es) (h, hs) = elim (Bool-cases (e.intent_id == id)) [
  | inl q ↦ rw q hs
  | inr q ↦ rw q (h, All-index_remove P id es hs)
]

index_remove-IsPairwise :
    (id : ℕ) (es : List Transaction) → IsPairwise Apart es → IsPairwise Apart (index_remove id es)
unfolding index_remove
index_remove-IsPairwise id [] h = tt
index_remove-IsPairwise id (e ∷ es) (h, hs) = elim (Bool-cases (e.intent_id == id)) [
  | inl q ↦ rw q hs
  | inr q ↦ rw q (All-index_remove (Apart e) id es h, index_remove-IsPairwise id es hs)
]

find-Apart :
    (id : ℕ) (e : Transaction) (es : List Transaction)
    → (e.intent_id == id) ≡ true
    → All (Apart e) es
    → find id es ≡ none
unfolding find
find-Apart id e [] q h = refl
find-Apart id e (f ∷ es) q (h, hs) = ground (arith, q, h, find-Apart id e es q hs)

find-index_remove :
    (id j : ℕ) (es : List Transaction)
    → IsPairwise Apart es
    → find j (index_remove id es) ≡ (if id == j then none else find j es)
unfolding find index_remove
find-index_remove id j [] h = ground arith
find-index_remove id j (e ∷ es) (h, hs) = elim (Bool-cases (e.intent_id == id)) [
  | inl q ↦ elim (Bool-cases (id == j)) [
    | inl r ↦ ground (arith, q, r, find-Apart j e es (ground (arith, q, r)) h)
    | inr r ↦ ground (arith, q, r)
  ]
  | inr q ↦ ground (arith, q, find-index_remove id j es hs)
]

drop_tx-IsPool : (id : ℕ) (mp : Mempool) → IsPool mp → IsPool (drop_tx id mp)
unfolding drop_tx get
drop_tx-IsPool id mp w = record {
  size = omega (arith, length-remove_le id mp.txs, w.size);
  keyed = remove-IsKeyed id mp.txs w.keyed;
  apart = index_remove-IsPairwise id mp.index w.apart;
  found = λ j.
      ground (arith, find-index_remove id j mp.index w.apart, lookup-remove id j mp.txs, w.found j);
}

find-append :
    (j : ℕ) (es : List Transaction) (tx : Transaction)
    → find tx.intent_id es ≡ none
    → find j (es ++ tx ∷ []) ≡ (if tx.intent_id == j then some tx else find j es)
unfolding find
find-append j [] tx h = refl
find-append j (e ∷ es) tx h = ground (arith, h, find-append j es tx (ground (arith, h)))

append-IsPairwise :
    (es : List Transaction) (tx : Transaction)
    → find tx.intent_id es ≡ none
    → IsPairwise Apart es
    → IsPairwise Apart (es ++ tx ∷ [])
unfolding find
append-IsPairwise [] tx h a = (tt, tt)
append-IsPairwise (e ∷ es) tx h (a, more) = elim (Bool-cases (e.intent_id == tx.intent_id)) [
  | inl q ↦ ground (arith, h, q)
  | inr q ↦ (All-append es tx e a q, append-IsPairwise es tx (ground (arith, h, q)) more)
]
  where
    All-append :
        (fs : List Transaction) (t f : Transaction)
        → All (Apart f) fs
        → Apart f t
        → All (Apart f) (fs ++ t ∷ [])
    All-append [] t f a q = (q, tt)
    All-append (g ∷ fs) t f (a, more) q = (a, All-append fs t f more q)

add_tx-IsPool :
    (now : ℕ) (tx : Transaction) (mp : Mempool)
    → lookup tx.intent_id mp.txs ≡ none
    → length mp.txs < mp.max_size
    → IsPool mp
    → IsPool (add_tx now tx mp)
unfolding add_tx index_insert get
add_tx-IsPool now tx mp h room w =
    let absent : find tx.intent_id mp.index ≡ none = ground (arith, w.found tx.intent_id, h) in
    let pt : PendingTx = record { tx = tx; submitted = now } in
    record {
      size = ground (arith, ap length (insert-absent tx.intent_id pt mp.txs h), room);
      keyed = subst⁻¹ IsKeyed (insert-absent tx.intent_id pt mp.txs h) (
        All-mono mp.txs (λ p q. ground (arith, q)) (lookup-absent tx.intent_id mp.txs h),
        w.keyed,
      );
      apart = append-IsPairwise mp.index tx absent w.apart;
      found = λ j. ground (
        arith,
        find-append j mp.index tx absent,
        lookup-insert tx.intent_id j pt mp.txs,
        w.found j,
      );
    }

-- What a submission that passes the checks has found.
pub check_submit_lem :
    (x : Context) (tx : Transaction) (mp : Mempool)
    → check_submit x tx mp ≡ ok tt
    → (length mp.txs < mp.max_size)
      × (lookup tx.intent_id mp.txs ≡ none)
      × ((n : ℕ) × (expected_nonce x tx mp ≡ ok n) × (tx.nonce ≡ wrap64 (n + 1)))
unfolding check_submit
check_submit_lem x tx mp h =
    let (_, h1) = >>-eq_ok (validate x.unix tx) _ h in
    let (_, h2) = >>-eq_ok (check_payload tx) _ h1 in
    let (room, h3) = >>-eq_ok (fail_if (leb mp.max_size (length mp.txs)) mempool_full) _ h2 in
    let (new, h4) =
      >>-eq_ok
        (fail_if (elim (lookup tx.intent_id mp.txs) [ none ↦ false | some _ ↦ true ])
          already_in_pool)
        _ h3 in
    (
      ground (arith, room),
      ground (arith, new),
      elim (Result-cases (expected_nonce x tx mp)) [
        | inr (e, q) ↦ ground (arith, h4, q)
        | inl (n, q) ↦ (n, q, ground (arith, h4, q, ==_iff tx.nonce (wrap64 (n + 1))))
      ],
    )

pub submit-cases :
    (x : Context) (tx : Transaction) (mp : Mempool)
    → ((check_submit x tx mp ≡ ok tt) × (submit x tx mp ≡ persist x tx (add_tx x.now tx mp)))
      ⊎ ((e : Error) × (check_submit x tx mp ≡ err e) × (submit x tx mp ≡ (err e, mp)))
unfolding submit admit
submit-cases x tx mp = elim (Result-cases (check_submit x tx mp)) [
  | inl (u, q) ↦ inl (q, ap (λ r. admit x tx r mp) q)
  | inr (e, q) ↦ inr (e, q, ap (λ r. admit x tx r mp) q)
]

pub persist-cases :
    (x : Context) (tx : Transaction) (mp : Mempool)
    → (persist x tx mp ≡ (ok tt, mp))
      ⊎ ((e : Error) × (persist x tx mp ≡ (err e, drop_tx tx.intent_id mp)))
unfolding persist answer
persist-cases x tx mp = elim (Option-cases x.put) [
  | inl q ↦ inl (ground (arith, q))
  | inr (put, q) ↦ elim (Result-cases (bind (encode tx) (put tx.intent_id))) [
    | inl (u, r) ↦ inl (ground (arith, q, ap (λ a. answer tx a mp) r))
    | inr (e, r) ↦ inr (e, ground (arith, q, ap (λ a. answer tx a mp) r))
  ]
]

submit-IsPool :
    (x : Context) (tx : Transaction) (mp : Mempool) → IsPool mp → IsPool (submit x tx mp).1
submit-IsPool x tx mp w = elim (submit-cases x tx mp) [
  | inr (e, _, q) ↦ subst⁻¹ (λ r. IsPool r.1) q w
  | inl (h, q) ↦
      let (room, new, _) = check_submit_lem x tx mp h in
      let added = add_tx-IsPool x.now tx mp new room w in
      subst⁻¹ (λ r. IsPool r.1) q
        (elim (persist-cases x tx (add_tx x.now tx mp)) [
          | inl p ↦ subst⁻¹ (λ r. IsPool r.1) p added
          | inr (e, p) ↦
              subst⁻¹ (λ r. IsPool r.1) p (drop_tx-IsPool tx.intent_id (add_tx x.now tx mp) added)
        ])
]

expire_each-IsPool :
    (now : ℕ) (old : Map ℕ PendingTx) (mp : Mempool) → IsPool mp → IsPool (expire_each now old mp)
unfolding expire_each
expire_each-IsPool now [] mp w = w
expire_each-IsPool now ((id, pt) ∷ rest) mp w =
    elim (Bool-cases (ltb mp.ttl (now - pt.submitted))) [
      | inl q ↦ rw q (expire_each-IsPool now rest (drop_tx id mp) (drop_tx-IsPool id mp w))
      | inr q ↦ rw q (expire_each-IsPool now rest mp w)
    ]

pub expire-IsPool : (now : ℕ) (mp : Mempool) → IsPool mp → IsPool (expire now mp)
unfolding expire
expire-IsPool now mp w = expire_each-IsPool now mp.txs mp w

pending_txs-IsPool : (now : ℕ) (mp : Mempool) → IsPool mp → IsPool (pending_txs now mp).1
unfolding pending_txs
pending_txs-IsPool now mp w = expire-IsPool now mp w

new-IsPool : (max_size ttl : ℕ) → IsPool (new_mempool max_size ttl)
unfolding new_mempool find get
new-IsPool max_size ttl = record {
  size = omega arith;
  keyed = tt;
  apart = tt;
  found = λ id. ground (arith, lookup-empty {V = PendingTx} id);
}

-- Whatever is submitted to a new pool, removed from it and asked for, in whatever order, it holds
-- at most its maximum, and its index lists exactly the transactions that it holds, each once.
pub Reaches-IsPool :
    (max_size ttl : ℕ) (mp : Mempool) → Reaches (new_mempool max_size ttl) mp → IsPool mp
Reaches-IsPool max_size ttl _ here = new-IsPool max_size ttl
Reaches-IsPool max_size ttl _ (submitted x tx mp r) =
    submit-IsPool x tx mp (Reaches-IsPool max_size ttl mp r)
Reaches-IsPool max_size ttl _ (removed id mp r) =
    drop_tx-IsPool id mp (Reaches-IsPool max_size ttl mp r)
Reaches-IsPool max_size ttl _ (offered now mp r) =
    pending_txs-IsPool now mp (Reaches-IsPool max_size ttl mp r)
