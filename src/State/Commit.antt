-- ===== src/State/Commit.antt =====
-- state/memory.go: Commit. The function `render` gives the string that a key of the store stands for.
pub mod Determined
use dsn.Prelude.{ℕ, List, [], ◌∷◌, Bool, true, false, ltb, ◌==◌, if◌then◌else◌}
use dsn.Prelude.Map.{Map}
use dsn.Prelude.Sort.{sort}
use dsn.Prelude.Entries.{by_key}
use dsn.Error.{Result, ok, ◌>>=◌}
use dsn.Bytes.{Bytes, put_be}
use dsn.Types.Vote.{Crypto}
use dsn.State.Key.{Key}
use dsn.State.Account.{Account, encode_account}
use dsn.State.Memory.{State}
use dsn.State.Merkle.{Smt, new_smt, insert_key}

-- The order of strings, byte by byte.
unfoldable pub string_before : Bytes → Bytes → Bool
string_before xs [] = false
string_before [] (y ∷ ys) = true
string_before (x ∷ xs) (y ∷ ys) = if x == y then string_before xs ys else ltb x y

abbrev pub key_before : (Key → Bytes) → Key → Key → Bool
key_before render j k = string_before (render j) (render k)

-- The loop over the sorted accounts.
unfoldable pub insert_accounts : Crypto → Map ℕ Account → Smt → Result Smt
unfolding encode_account insert_key
insert_accounts c [] t = ok t
insert_accounts c ((addr, acc) ∷ rest) t = do
  bs ← encode_account acc
  insert_accounts c rest (insert_key c (put_be 20 addr) bs t)

-- The loop over the sorted entries of the store.
unfoldable pub insert_entries : Crypto → (Key → Bytes) → Map Key Bytes → Smt → Smt
unfolding insert_key
insert_entries c render [] t = t
insert_entries c render ((k, val) ∷ rest) t =
    insert_entries c render rest (insert_key c (render k) val t)

-- The new tree, of which Commit returns the root.
unfoldable pub build_tree : Crypto → (Key → Bytes) → State → Result Smt
unfolding insert_accounts insert_entries
build_tree c render s = do
  t ← insert_accounts c (sort (by_key ltb) s.accounts) new_smt
  ok (insert_entries c render (sort (by_key (key_before render)) s.kvstore) t)

unfoldable pub commit : Crypto → (Key → Bytes) → State → Result ℕ
unfolding build_tree
commit c render s = do t ← build_tree c render s; ok t.root
