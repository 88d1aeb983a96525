-- ===== src/State/Applier/Keep.antt =====
-- Whatever a standard payload does, it leaves the sender an account that covers the fee, with the
-- nonce and the key that it had.
use dsn.Prelude.{
  ℕ, ◌+◌, ◌-◌, ◌≡◌, ◌≢◌, ◌≤◌, refl, arith, ◌==◌, some, inl, inr, Option-cases, length, ltb, true,
  false, ==_iff, Bool-cases, ap, ◌∙◌,
}
use dsn.Prelude.Map.{lookup, insert, nat_eq, lookup-insert}
use dsn.Error.{ok}
use dsn.Types.Amount.{add, sub}
use dsn.Types.Transaction.{Transaction}
use dsn.State.Account.{Account, new_account, increment_nonce}
use dsn.State.Memory.{
  State, Accounts, Ref, stored, get_account, set_account, credit, debit, bump_nonce,
}
use dsn.State.Payload.{apply_transfer, amount_of, recipient_of}
use dsn.State.Transitions.{get_or_new}
use dsn.State.Applier.{settle}
use dsn.State.Applier.Effect.{settled, Transferred, transfer_to_new, transfer_to_known}

pub record Keeps (fee k : ℕ) (a : Account) (m : Accounts) : Type 0 where
  pub account : Account
  pub at : lookup k m ≡ some account
  pub covers : fee ≤ account.balance
  pub nonce : account.nonce ≡ a.nonce
  pub public_key : account.public_key ≡ a.public_key

module _ (tx : Transaction) (ref : Ref) (s t : State) (k : ℕ) (a : Account)
    (found : lookup k s.accounts ≡ some a) (covered : tx.max_fee ≤ a.balance)
    (done : apply_transfer tx (stored k) s ≡ (ok ref, t)) where
  keeps_short : ltb (length tx.payload) 28 ≡ true → (ref ≡ stored k) × (t ≡ s)
  unfolding apply_transfer
  keeps_short short = ground arith

  -- A transfer to oneself adds the amount and takes it away again.
  keeps_self :
      ltb (length tx.payload) 28 ≡ false
      → recipient_of tx ≡ k
      → (ref ≡ stored k)
        × (lookup k t.accounts
            ≡ some (record a { balance = a.balance + amount_of tx - amount_of tx }))
  unfolding apply_transfer get_or_new get_account set_account credit debit add sub
  keeps_self long same =
      let r = recipient_of tx in
      let b = record a { balance = a.balance + amount_of tx } in
      let a' = record a { balance = a.balance + amount_of tx - amount_of tx } in
      let once = insert r b s.accounts in
      let twice = insert k a' once in
      ground (
        arith,
        found,
        ap (λ (j : ℕ). lookup j s.accounts) same,
        lookup-insert r k b s.accounts,
        lookup-insert k r a' once,
        lookup-insert r k a' twice,
      )

  moved-Keeps :
      (b : Account)
      → recipient_of tx ≢ k
      → Transferred tx ref s t k a b
      → (ref ≡ stored k) × Keeps tx.max_fee k a t.accounts
  moved-Keeps b ne h = (
    h.same,
    record {
      account = record a { balance = a.balance - amount_of tx };
      at = h.moves.at k ∙ ground arith;
      covers = ground (arith, h.covers);
      nonce = refl;
      public_key = refl;
    },
  )

  pub apply_transfer-Keeps : (ref ≡ stored k) × Keeps tx.max_fee k a t.accounts
  apply_transfer-Keeps = elim (Bool-cases (ltb (length tx.payload) 28)) [
    | inl short ↦
        let (same, eq) = keeps_short short in
        (
          same,
          record {
            account = a;
            at = rw eq found;
            covers = covered;
            nonce = refl;
            public_key = refl;
          },
        )
    | inr long ↦ elim (Bool-cases (recipient_of tx == k)) [
      | inl self ↦
          let (same, at) = keeps_self long ((==_iff (recipient_of tx) k).0 self) in
          (
            same,
            record {
              account = record a { balance = a.balance + amount_of tx - amount_of tx };
              at = at;
              covers = omega arith;
              nonce = refl;
              public_key = refl;
            },
          )
      | inr other ↦
          let ne : recipient_of tx ≢ k = λ e. absurd (ground arith) in
          let full : 28 ≤ length tx.payload = ground arith in
          elim (Option-cases (lookup (recipient_of tx) s.accounts)) [
            | inl absent ↦
                moved-Keeps (new_account (recipient_of tx) 0) ne
                  (transfer_to_new tx ref s t k a found ne full done absent)
            | inr (b, there) ↦
                moved-Keeps b ne (transfer_to_known tx ref s t k a found ne full done b there)
          ]
    ]
  ]

-- The last steps succeed on an account that covers the fee.
pub settle_total :
    (tx : Transaction) (a : Account) (s : State)
    → lookup tx.sender s.accounts ≡ some a
    → tx.max_fee ≤ a.balance
    → (t : State) × (settle tx (stored tx.sender) s ≡ (ok tx.intent_id, t))
unfolding settle debit bump_nonce set_account sub increment_nonce
settle_total tx a s found covers =
    let k = tx.sender in
    let charged = record a { balance = a.balance - tx.max_fee } in
    let once = insert k charged s.accounts in
    let twice = insert k (settled tx a) once in
    (
      record s { accounts = insert k (settled tx a) twice },
      ground (
        arith,
        found,
        lookup-insert k k charged s.accounts,
        lookup-insert k k (settled tx a) once,
      ),
    )
