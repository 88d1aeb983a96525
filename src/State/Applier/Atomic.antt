-- ===== src/State/Applier/Atomic.antt =====
-- A standard transaction that fails changes nothing.
use dsn.Prelude.{
  ℕ, ◌+◌, ◌≡◌, ◌≤◌, arith, ◌==◌, some, inl, inr, Option-cases, wrap64, ==_iff, Bool-cases, ap, ◌-◌,
}
use dsn.Prelude.Map.{lookup, insert, nat_eq, lookup-insert}
use dsn.Error.{Error, ok, err}
use dsn.Types.Vote.{Crypto}
use dsn.Types.Amount.{add, sub}
use dsn.Types.Transaction.{Transaction}
use dsn.State.Account.{Account}
use dsn.State.Memory.{State, Ref, stored, get_account, load, set_account, credit, debit}
use dsn.State.Payload.{apply_transfer, amount_of, recipient_of}
use dsn.State.Transitions.{get_or_new}
use dsn.State.Applier.{check_transaction}

-- The checks never change the state, and where they pass the sender's account covers the fee.
pub check_transaction_lem :
    (c : Crypto) (now : ℕ) (tx : Transaction) (r : Ref) (s t : State)
    → check_transaction c now tx s ≡ (ok r, t)
    → (a : Account) × (t ≡ s)
      × (r ≡ stored tx.sender)
      × (lookup tx.sender s.accounts ≡ some a)
      × (tx.nonce ≡ wrap64 (a.nonce + 1))
      × (tx.max_fee ≤ a.balance)
unfolding check_transaction get_account load
check_transaction_lem c now tx r s t e = elim (Option-cases (lookup tx.sender s.accounts)) [
  | inl absent ↦ ground arith
  | inr (a, found) ↦ (a, ground arith, ground arith, found, ground arith, ground arith)
]

pub check_transaction_error :
    (c : Crypto) (now : ℕ) (tx : Transaction) (x : Error) (s t : State)
    → check_transaction c now tx s ≡ (err x, t)
    → t ≡ s
unfolding check_transaction get_account load
check_transaction_error c now tx x s t e = ground arith

-- The payload of a standard transaction, with the sender's account at hand.
module _ (tx : Transaction) (s t : State) (k : ℕ) (a : Account)
    (found : lookup k s.accounts ≡ some a) where
  pub apply_transfer_error : (x : Error) → apply_transfer tx (stored k) s ≡ (err x, t) → t ≡ s
  unfolding apply_transfer get_or_new get_account set_account credit debit add sub
  apply_transfer_error x e =
      let r = recipient_of tx in
      let amount = amount_of tx in
      elim (Option-cases (lookup r s.accounts)) [
        | inl new ↦ ground (arith, found, new, ==_iff k r)
        | inr (b, there) ↦
            let b' = record b { balance = b.balance + amount } in
            let once = insert r b' s.accounts in
            elim (Bool-cases (k == r)) [
              | inl same ↦ ground (
                arith,
                lookup-insert r k b' s.accounts,
                lookup-insert r r b' s.accounts,
                lookup-insert k r (record b { balance = b.balance + amount - amount }) once,
                ap (λ (j : ℕ). lookup j s.accounts) ((==_iff k r).0 same),
              )
              | inr other ↦ ground (
                arith,
                lookup-insert r k b' s.accounts,
                lookup-insert r r b' s.accounts,
                lookup-insert k r (record a { balance = a.balance - amount }) once,
              )
            ]
      ]
