-- ===== src/State/Applier/Effect.antt =====
-- What a transaction that succeeds does to the accounts.
use dsn.Prelude.{
  ℕ, ◌+◌, ◌-◌, ◌≡◌, ◌≢◌, ◌≤◌, arith, ◌==◌, none, some, length, wrap64, if◌then◌else◌, ap,
}
use dsn.Prelude.Map.{lookup, insert, nat_eq, lookup-insert}
use dsn.Error.{ok}
use dsn.Types.Amount.{add, sub}
use dsn.Types.Transaction.{Transaction}
use dsn.State.Account.{Account, new_account, increment_nonce}
use dsn.State.Memory.{
  State, Accounts, Ref, stored, get_account, set_account, credit, debit, bump_nonce,
}
use dsn.State.Supply.{total, holds, IsUnique, Writes, Writes-insert, Writes-trans}
use dsn.State.Payload.{apply_transfer, amount_of, recipient_of}
use dsn.State.Transitions.{get_or_new}
use dsn.State.Applier.{settle}

-- The account after the fee and the nonce.
abbrev pub settled : Transaction → Account → Account
settled tx a = record a { balance = a.balance - tx.max_fee; nonce = wrap64 (a.nonce + 1) }

-- The three writes of the last steps amount to one.
pub settle_lem :
    (tx : Transaction) (a : Account) (receipt : ℕ) (s t : State)
    → lookup tx.sender s.accounts ≡ some a
    → settle tx (stored tx.sender) s ≡ (ok receipt, t)
    → (tx.max_fee ≤ a.balance)
      × (receipt ≡ tx.intent_id)
      × Writes tx.sender (settled tx a) s.accounts t.accounts
      × (t.kvstore ≡ s.kvstore)
unfolding settle debit bump_nonce set_account sub increment_nonce
settle_lem tx a receipt s t found e =
    let k = tx.sender in
    let charged = record a { balance = a.balance - tx.max_fee } in
    let once = insert k charged s.accounts in
    let twice = insert k (settled tx a) once in
    let thrice = insert k (settled tx a) twice in
    let result : (tx.max_fee ≤ a.balance)
        × (receipt ≡ tx.intent_id)
        × (t ≡ record s { accounts = thrice }) =
      ground (
        arith,
        found,
        lookup-insert k k charged s.accounts,
        lookup-insert k k (settled tx a) once,
      ) in
    (
      result.0,
      result.1,
      rw result.2 (
          Writes-trans k (settled tx a) (settled tx a) s.accounts twice thrice
            (Writes-trans k charged (settled tx a) s.accounts once twice
              (Writes-insert k charged s.accounts) (Writes-insert k (settled tx a) once))
            (Writes-insert k (settled tx a) twice)),
      ap (λ (x : State). x.kvstore) result.2,
    )

-- `m'` is `m` with `a` at `k` and `b` at another address `r`.
pub record Moves (k : ℕ) (a : Account) (r : ℕ) (b : Account) (m m' : Accounts) : Type 0 where
  pub at :
      (j : ℕ) → lookup j m' ≡ (if r == j then some b else if k == j then some a else lookup j m)
  pub total : IsUnique m → total m' + holds k m + holds r m ≡ total m + a.balance + b.balance
  pub unique : IsUnique m → IsUnique m'

-- The code's writes: of the recipient through its pointer or not at all, of the sender, and of the
-- recipient again.
Moves-new :
    (k : ℕ) (a : Account) (r : ℕ) (b : Account) (m : Accounts)
    → r ≢ k
    → Moves k a r b m (insert r b (insert k a m))
Moves-new k a r b m ne =
    let once = Writes-insert k a m in
    let twice = Writes-insert r b (insert k a m) in
    record {
      at = λ j. ground (arith, twice.at j, once.at j);
      total = λ u. ground (arith, twice.total (once.unique u), once.total u, once.at r);
      unique = λ u. twice.unique (once.unique u);
    }

Moves-known :
    (k : ℕ) (a : Account) (r : ℕ) (b : Account) (m : Accounts)
    → r ≢ k
    → Moves k a r b m (insert r b (insert k a (insert r b m)))
Moves-known k a r b m ne =
    let first = Writes-insert r b m in
    let rest = Moves-new k a r b (insert r b m) ne in
    record {
      at = λ j. ground (arith, rest.at j, first.at j);
      total =
          λ u. ground (arith, rest.total (first.unique u), first.total u, first.at k, first.at r);
      unique = λ u. rest.unique (first.unique u);
    }

-- What a transfer from `k` gives, for the recipient's account `b` before it.
pub record Transferred (tx : Transaction) (ref : Ref) (s t : State) (k : ℕ) (a b : Account)
    : Type 0 where
  pub same : ref ≡ stored k
  pub covers : tx.max_fee + amount_of tx ≤ a.balance
  pub moves :
      Moves k
        (record a { balance = a.balance - amount_of tx })
        (recipient_of tx)
        (record b { balance = b.balance + amount_of tx })
        s.accounts
        t.accounts
  pub kvstore : t.kvstore ≡ s.kvstore

module _ (tx : Transaction) (ref : Ref) (s t : State) (k : ℕ) (a : Account)
    (found : lookup k s.accounts ≡ some a) (other : recipient_of tx ≢ k)
    (full : 28 ≤ length tx.payload) (done : apply_transfer tx (stored k) s ≡ (ok ref, t)) where
  pub transfer_to_new :
      lookup (recipient_of tx) s.accounts ≡ none
      → Transferred tx ref s t k a (new_account (recipient_of tx) 0)
  unfolding apply_transfer get_or_new get_account set_account credit debit add sub
  transfer_to_new absent =
      let r = recipient_of tx in
      let a' = record a { balance = a.balance - amount_of tx } in
      let b = new_account r 0 in
      let b' = record b { balance = b.balance + amount_of tx } in
      let result : (ref ≡ stored k)
          × (tx.max_fee + amount_of tx ≤ a.balance)
          × (t ≡ record s { accounts = insert r b' (insert k a' s.accounts) }) =
        ground (arith, found, absent) in
      record {
        same = result.0;
        covers = result.1;
        moves = rw result.2 (Moves-new k a' r b' s.accounts other);
        kvstore = ap (λ (x : State). x.kvstore) result.2;
      }

  pub transfer_to_known :
      (b : Account) → lookup (recipient_of tx) s.accounts ≡ some b → Transferred tx ref s t k a b
  unfolding apply_transfer get_or_new get_account set_account credit debit add sub
  transfer_to_known b there =
      let r = recipient_of tx in
      let a' = record a { balance = a.balance - amount_of tx } in
      let b' = record b { balance = b.balance + amount_of tx } in
      let once = insert r b' s.accounts in
      let result : (ref ≡ stored k)
          × (tx.max_fee + amount_of tx ≤ a.balance)
          × (t ≡ record s { accounts = insert r b' (insert k a' once) }) =
        ground (
          arith,
          found,
          there,
          lookup-insert r k b' s.accounts,
          lookup-insert r r b' s.accounts,
          lookup-insert k r a' once,
        ) in
      record {
        same = result.0;
        covers = result.1;
        moves = rw result.2 (Moves-known k a' r b' s.accounts other);
        kvstore = ap (λ (x : State). x.kvstore) result.2;
      }
