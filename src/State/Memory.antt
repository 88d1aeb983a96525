-- ===== src/State/Memory.antt =====
-- state/memory.go: InMemoryState without its locks and its Merkle tree.
--
-- The map holds pointers, and GetAccount returns the pointer itself. A pointer is here a `Ref`: one
-- to the account stored at an address, through which every change is a change of the map, or one
-- to an account that is not stored yet. No code of the repository stores one account at two
-- addresses, so a stored account is known by its address.
pub mod Laws
use dsn.Prelude.{
  ℕ, ◌+◌, ◌-◌, ◌≡◌, Bool, List, [], ◌∷◌, ◌++◌, Option, none, some, length, take, get_elem?, leb,
  if◌then◌else◌, true, false,
}
use dsn.Prelude.Map.{Map, lookup, insert, remove, nat_eq}
use dsn.Error.{Error, Result, ok, err, account_not_found, invalid_snapshot}
use dsn.Exec.{Exec, ◌>>=◌, ◌>>◌, pure, raise, lift, gets, modify}
use dsn.Bytes.{Bytes}
use dsn.Types.Amount.{Amount}
use dsn.State.Key.{Key, key_eq}
use dsn.State.Account.{Account, add_balance, sub_balance, increment_nonce}

abbrev pub Accounts : Type 0
Accounts = Map ℕ Account

abbrev pub Store : Type 0
Store = Map Key Bytes

pub record Snapshot : Type 0 where
  pub accounts : Accounts
  pub kvstore : Store

pub record State : Type 0 where
  pub accounts : Accounts
  pub kvstore : Store
  pub snapshots : List Snapshot

abbrev pub Action {ℓ} : Type ℓ → Type ℓ
Action A = Exec State A

pub data Ref : Type 0 where
  stored : ℕ → Ref
  fresh : Account → Ref

unfoldable pub get_account : ℕ → Action Ref
get_account addr s = elim (lookup addr s.accounts) [
  | none ↦ (err account_not_found, s)
  | some a ↦ (ok (stored addr), s)
]

-- The account behind a pointer.
unfoldable pub load : Ref → Action Account
load (fresh a) s = (ok a, s)
load (stored addr) s = elim (lookup addr s.accounts) [
  | none ↦ (err account_not_found, s)
  | some a ↦ (ok a, s)
]

-- A change through a pointer.
unfoldable pub update : Ref → Account → Action Ref
update (fresh _) a s = (ok (fresh a), s)
update (stored addr) a s = (ok (stored addr), record s { accounts = insert addr a s.accounts })

unfoldable pub set_account : ℕ → Ref → Action (Unit {0})
unfolding load
set_account addr r = do a ← load r; modify (λ s. record s { accounts = insert addr a s.accounts })

unfoldable pub delete_account : ℕ → Action (Unit {0})
delete_account addr = modify (λ s. record s { accounts = remove addr s.accounts })

-- AddBalance, SubBalance and IncrementNonce through a pointer.
unfoldable pub credit : Ref → Amount → Action Ref
unfolding load update add_balance
credit r amount = do a ← load r; b ← lift (add_balance amount a); update r b

unfoldable pub debit : Ref → Amount → Action Ref
unfolding load update sub_balance
debit r amount = do a ← load r; b ← lift (sub_balance amount a); update r b

unfoldable pub bump_nonce : Ref → Action Ref
unfolding load update increment_nonce
bump_nonce r = do a ← load r; update r (increment_nonce a)

unfoldable pub get_bytes : Key → State → Option Bytes
get_bytes k s = lookup k s.kvstore

unfoldable pub set_bytes : Key → Bytes → Action (Unit {0})
set_bytes k v = modify (λ s. record s { kvstore = insert k v s.kvstore })

unfoldable pub delete_bytes : Key → Action (Unit {0})
delete_bytes k = modify (λ s. record s { kvstore = remove k s.kvstore })

-- The deep copies entry by entry. An account's struct is copied as it is.
unfoldable pub copy_accounts : Accounts → Accounts
copy_accounts [] = []
copy_accounts ((addr, a) ∷ src) = (addr, a) ∷ copy_accounts src

unfoldable pub copy_bytes : Bytes → Bytes
copy_bytes [] = []
copy_bytes (b ∷ bs) = b ∷ copy_bytes bs

unfoldable pub copy_kv : Store → Store
unfolding copy_bytes
copy_kv [] = []
copy_kv ((key, v) ∷ src) = (key, copy_bytes v) ∷ copy_kv src

unfoldable pub snapshot : Action ℕ
unfolding copy_accounts copy_kv
snapshot s =
    let snap : Snapshot = record {
      accounts = copy_accounts s.accounts;
      kvstore = copy_kv s.kvstore;
    } in
    (ok (length s.snapshots), record s { snapshots = s.snapshots ++ snap ∷ [] })

-- The id is not negative; a negative one fails as one that is too large does.
unfoldable pub revert_to_snapshot : ℕ → Action (Unit {0})
unfolding copy_accounts copy_kv
revert_to_snapshot id s = elim (get_elem? s.snapshots id) [
  | none ↦ (err invalid_snapshot, s)
  | some snap ↦ (
    ok tt,
    record {
      accounts = copy_accounts snap.accounts;
      kvstore = copy_kv snap.kvstore;
      snapshots = take id s.snapshots;
    },
  )
]
