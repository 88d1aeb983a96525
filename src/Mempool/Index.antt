-- ===== src/Mempool/Index.antt =====
-- mempool/pool.go: txIndex, the list that is sorted for the block builder.
use dsn.Prelude.{ℕ, List, [], ◌∷◌, ◌++◌, Bool, ltb, ◌==◌, if◌then◌else◌}
use dsn.Prelude.Sort.{sort}
use dsn.Types.Transaction.{Transaction}

-- txIndex.Insert
unfoldable pub index_insert : Transaction → List Transaction → List Transaction
index_insert tx entries = entries ++ tx ∷ []

-- txIndex.Remove: the first entry with the id.
unfoldable pub index_remove : ℕ → List Transaction → List Transaction
index_remove id [] = []
index_remove id (e ∷ es) =
    let rest = index_remove id es in if e.intent_id == id then es else e ∷ rest

-- The order of Sorted: the greater fee, then the older timestamp, then the smaller id.
abbrev pub tx_precedes : Transaction → Transaction → Bool
tx_precedes a b =
    if a.max_fee == b.max_fee
    then if a.timestamp == b.timestamp
      then ltb a.intent_id b.intent_id
      else ltb a.timestamp b.timestamp
    else ltb b.max_fee a.max_fee

unfoldable pub sorted : List Transaction → List Transaction
unfolding sort
sorted entries = sort tx_precedes entries
