-- ===== src/Mempool/Pool.antt =====
-- mempool/pool.go: the pool's state, its removal, its expiry and what it offers to a block. The
-- clock's reading is an argument, in the unit of the time to live; it does not go back. The locks
-- are not modelled: every operation is one step.
use dsn.Prelude.{ℕ, ◌-◌, List, [], ◌∷◌, Option, none, some, length, leb, ltb, if◌then◌else◌}
use dsn.Prelude.Map.{Map, lookup, remove, nat_eq}
use dsn.Types.Transaction.{Transaction}
use dsn.Mempool.Index.{index_remove, sorted}

pub record PendingTx : Type 0 where
  pub tx : Transaction
  pub submitted : ℕ

pub record Mempool : Type 0 where
  pub txs : Map ℕ PendingTx
  pub index : List Transaction
  pub max_size : ℕ
  pub ttl : ℕ
  pub next_nonce : Map ℕ ℕ

-- New. The accounts that it reads are an argument of Submit.
unfoldable pub new_mempool : ℕ → ℕ → Mempool
new_mempool max_size ttl = record {
  txs = [];
  index = [];
  max_size = max_size;
  ttl = ttl;
  next_nonce = [];
}

-- Remove, in memory. The error of the deletion from the database is dropped.
unfoldable pub drop_tx : ℕ → Mempool → Mempool
unfolding index_remove
drop_tx id mp = record mp { txs = remove id mp.txs; index = index_remove id mp.index }

unfoldable pub count : Mempool → ℕ
count mp = length mp.txs

unfoldable pub get : ℕ → Mempool → Option Transaction
get id mp = elim (lookup id mp.txs) [ none ↦ none | some pt ↦ some pt.tx ]

-- expire: the loop over the entries that are left, in the order of the map.
unfoldable pub expire_each : ℕ → Map ℕ PendingTx → Mempool → Mempool
unfolding drop_tx
expire_each now [] mp = mp
expire_each now ((id, pt) ∷ rest) mp =
    expire_each now rest (if ltb mp.ttl (now - pt.submitted) then drop_tx id mp else mp)

unfoldable pub expire : ℕ → Mempool → Mempool
unfolding expire_each
expire now mp = expire_each now mp.txs mp

-- The loop of PendingTxs over the sorted entries.
unfoldable pub unexpired : ℕ → Mempool → List Transaction → List Transaction
unexpired now mp [] = []
unexpired now mp (tx ∷ all) =
    let rest = unexpired now mp all in
    elim (lookup tx.intent_id mp.txs) [
      | none ↦ rest
      | some pt ↦ if leb (now - pt.submitted) mp.ttl then tx ∷ rest else rest
    ]

unfoldable pub pending_txs : ℕ → Mempool → List Transaction × Mempool
unfolding expire sorted unexpired
pending_txs now mp = let mp' = expire now mp in (unexpired now mp' (sorted mp'.index), mp')
