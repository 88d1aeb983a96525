-- ===== src/Mempool/Offered.antt =====
-- What PendingTxs offers to a block: exactly the transactions that have not expired, in order.
use dsn.Prelude.{
  ℕ, ◌-◌, ◌≡◌, refl, ap, List, [], ◌∷◌, Option, none, some, Bool, true, false, ◌==◌, ◌&&◌, ◌||◌,
  ltb, leb, if◌then◌else◌, arith, All, ==_iff, Bool-cases, Option-cases, inl, inr, ◌⊎◌,
}
use mathlib.Core.Path.{subst, subst⁻¹}
use dsn.Prelude.Sort
use dsn.Prelude.Map.{Map, lookup, nat_eq, lookup-remove, IsKeyed}
use dsn.Prelude.Sort.{IsPairwise, place, sort, sort-IsPairwise, sort-IsOrdered, All-sort}
use dsn.Types.Transaction.{Transaction}
use dsn.Mempool.Index.{tx_precedes, sorted}
use dsn.Mempool.Pool.{
  PendingTx, Mempool, new_mempool, drop_tx, get, expire_each, expire, unexpired, pending_txs,
}
use dsn.Mempool.Kept.{Reaches, find, Apart, IsPool, expire-IsPool, Reaches-IsPool}

-- The transaction that the pool holds under an id, unless its time is over.
abbrev pub live : ℕ → ℕ → Mempool → Option Transaction
live now id mp = elim (lookup id mp.txs) [
  | none ↦ none
  | some pt ↦ if leb (now - pt.submitted) mp.ttl then some pt.tx else none
]

-- What a loop of expire over some entries drops.
unfoldable dropped : ℕ → ℕ → ℕ → Map ℕ PendingTx → Bool
dropped now ttl id [] = false
dropped now ttl id ((j, pt) ∷ rest) =
    (j == id && ltb ttl (now - pt.submitted)) || dropped now ttl id rest

lookup-expire_each :
    (now id : ℕ) (old : Map ℕ PendingTx) (mp : Mempool)
    → (lookup id (expire_each now old mp).txs
        ≡ (if dropped now mp.ttl id old then none else lookup id mp.txs))
      × ((expire_each now old mp).ttl ≡ mp.ttl)
unfolding expire_each dropped drop_tx
lookup-expire_each now id [] mp = (refl, refl)
lookup-expire_each now id ((j, pt) ∷ rest) mp =
    elim (Bool-cases (ltb mp.ttl (now - pt.submitted))) [
      | inl q ↦
          let (h, k) = lookup-expire_each now id rest (drop_tx j mp) in
          (ground (arith, q, h, lookup-remove j id mp.txs), ground (arith, q, k))
      | inr q ↦
          let (h, k) = lookup-expire_each now id rest mp in
          (ground (arith, q, h), ground (arith, q, k))
    ]

dropped-absent :
    (now ttl id : ℕ) (m : Map ℕ PendingTx)
    → All (λ e. (id == e.0) ≡ false) m
    → dropped now ttl id m ≡ false
unfolding dropped
dropped-absent now ttl id [] h = refl
dropped-absent now ttl id ((j, pt) ∷ m) (h, hs) = ground (arith, h, dropped-absent now ttl id m hs)

dropped_lem :
    (now ttl id : ℕ) (m : Map ℕ PendingTx)
    → IsKeyed m
    → dropped now ttl id m
      ≡ elim (lookup id m) [ none ↦ false | some pt ↦ ltb ttl (now - pt.submitted) ]
unfolding dropped lookup
dropped_lem now ttl id [] h = refl
dropped_lem now ttl id ((j, pt) ∷ m) (h, hs) = elim (Bool-cases (j == id)) [
  | inl q ↦
      let same : j ≡ id = (==_iff j id).0 q in
      ground (
        arith,
        q,
        dropped-absent now ttl id m (subst (λ k. All (λ e. (k == e.0) ≡ false) m) same h),
      )
  | inr q ↦ ground (arith, q, dropped_lem now ttl id m hs)
]

lookup-expire :
    (now id : ℕ) (mp : Mempool)
    → IsKeyed mp.txs
    → lookup id (expire now mp).txs ≡ elim (lookup id mp.txs) [
      | none ↦ none
      | some pt ↦ if ltb mp.ttl (now - pt.submitted) then none else some pt
    ]
unfolding expire
lookup-expire now id mp h =
    ground (arith, lookup-expire_each now id mp.txs mp, dropped_lem now mp.ttl id mp.txs h)

find-unexpired :
    (now id : ℕ) (mp : Mempool) (all : List Transaction)
    → find id (unexpired now mp all) ≡ elim (lookup id mp.txs) [
      | none ↦ none
      | some pt ↦ if leb (now - pt.submitted) mp.ttl then find id all else none
    ]
unfolding find unexpired
find-unexpired now id mp [] = ground arith
find-unexpired now id mp (tx ∷ all) = elim (Bool-cases (tx.intent_id == id)) [
  | inl q ↦
      let same = ap (λ k. lookup k mp.txs) ((==_iff tx.intent_id id).0 q) in
      ground (arith, q, same, find-unexpired now id mp all)
  | inr q ↦ ground (arith, q, find-unexpired now id mp all)
]

find-place :
    (id : ℕ) (tx : Transaction) (es : List Transaction)
    → All (Apart tx) es
    → find id (place tx_precedes tx es) ≡ (if tx.intent_id == id then some tx else find id es)
unfolding find place
find-place id tx [] h = refl
find-place id tx (e ∷ es) (h, hs) = elim (Bool-cases (tx_precedes e tx)) [
  | inl q ↦ ground (arith, q, h, find-place id tx es hs)
  | inr q ↦ ground (arith, q)
]

find-sorted :
    (id : ℕ) (es : List Transaction) → IsPairwise Apart es → find id (sorted es) ≡ find id es
unfolding find sorted sort
find-sorted id [] h = refl
find-sorted id (e ∷ es) (h, hs) =
    ground (
      arith,
      find-place id e (sorted es) (All-sort tx_precedes (Apart e) es h),
      find-sorted id es hs,
    )

-- One round of the loop keeps the transaction or passes it over.
unexpired-cases :
    (now : ℕ) (mp : Mempool) (tx : Transaction) (all : List Transaction)
    → (unexpired now mp (tx ∷ all) ≡ tx ∷ unexpired now mp all)
      ⊎ (unexpired now mp (tx ∷ all) ≡ unexpired now mp all)
unfolding unexpired
unexpired-cases now mp tx all = elim (Option-cases (lookup tx.intent_id mp.txs)) [
  | inl q ↦ inr (ground (arith, q))
  | inr (pt, q) ↦ elim (Bool-cases (leb (now - pt.submitted) mp.ttl)) [
    | inl r ↦ inl (ground (arith, q, r))
    | inr r ↦ inr (ground (arith, q, r))
  ]
]

All-unexpired :
    (P : Transaction → Type 0) (now : ℕ) (mp : Mempool) (all : List Transaction)
    → All P all
    → All P (unexpired now mp all)
All-unexpired P now mp [] h = unfold unexpired in tt
All-unexpired P now mp (tx ∷ all) (h, hs) = elim (unexpired-cases now mp tx all) [
  | inl q ↦ subst⁻¹ (All P) q (h, All-unexpired P now mp all hs)
  | inr q ↦ subst⁻¹ (All P) q (All-unexpired P now mp all hs)
]

unexpired-IsPairwise :
    (R : Transaction → Transaction → Type 0) (now : ℕ) (mp : Mempool) (all : List Transaction)
    → IsPairwise R all
    → IsPairwise R (unexpired now mp all)
unexpired-IsPairwise R now mp [] h = unfold unexpired in tt
unexpired-IsPairwise R now mp (tx ∷ all) (h, hs) = elim (unexpired-cases now mp tx all) [
  | inl q ↦
      subst⁻¹ (IsPairwise R) q
        (All-unexpired (R tx) now mp all h, unexpired-IsPairwise R now mp all hs)
  | inr q ↦ subst⁻¹ (IsPairwise R) q (unexpired-IsPairwise R now mp all hs)
]

expire-ttl : (now : ℕ) (mp : Mempool) → (expire now mp).ttl ≡ mp.ttl
unfolding expire
expire-ttl now mp = (lookup-expire_each now 0 mp.txs mp).1

offered_lem :
    (now id : ℕ) (mp mp' : Mempool)
    → IsPool mp'
    → mp'.ttl ≡ mp.ttl
    → lookup id mp'.txs ≡ elim (lookup id mp.txs) [
      | none ↦ none
      | some pt ↦ if ltb mp.ttl (now - pt.submitted) then none else some pt
    ]
    → find id (unexpired now mp' (sorted mp'.index)) ≡ live now id mp
unfolding get
offered_lem now id mp mp' w ht hl = ground (
  arith,
  find-unexpired now id mp' (sorted mp'.index),
  find-sorted id mp'.index w.apart,
  w.found id,
  ht,
  hl,
)

tx_precedes_trans :
    (u v w : Transaction)
    → tx_precedes v u ≡ false
    → tx_precedes w v ≡ false
    → tx_precedes w u ≡ false
tx_precedes_trans u v w h k = ground (arith, h, k)

tx_precedes-asym : (v w : Transaction) → tx_precedes w v ≡ true → tx_precedes v w ≡ false
tx_precedes-asym v w h = ground (arith, h)

Apart-flip : (v w : Transaction) → Apart v w → Apart w v
Apart-flip v w h = ground (arith, h)

-- A pool that its operations lead to from a new one offers at any time the transactions that it
-- holds and that have not expired, and no others, each once, by falling fee, then by rising
-- timestamp, then by rising id.
pub pending_txs-live :
    (max_size ttl now : ℕ) (mp : Mempool)
    → Reaches (new_mempool max_size ttl) mp
    → ((id : ℕ) → find id (pending_txs now mp).0 ≡ live now id mp)
      × IsPairwise Apart (pending_txs now mp).0
      × Sort.IsOrdered tx_precedes (pending_txs now mp).0
unfolding pending_txs sorted
pending_txs-live max_size ttl now mp r =
    let w = Reaches-IsPool max_size ttl mp r in
    let mp' = expire now mp in
    let w' = expire-IsPool now mp w in
    let apart = sort-IsPairwise tx_precedes Apart mp'.index Apart-flip w'.apart in
    let ordered = sort-IsOrdered tx_precedes tx_precedes_trans tx_precedes-asym mp'.index in
    (
      λ id. offered_lem now id mp mp' w' (expire-ttl now mp) (lookup-expire now id mp w.keyed),
      unexpired-IsPairwise Apart now mp' (sort tx_precedes mp'.index) apart,
      unexpired-IsPairwise (λ v w. tx_precedes w v ≡ false) now mp' (sort tx_precedes mp'.index)
          ordered,
    )
