-- ===== src/State/Applier/Standard.antt =====
-- ApplyTransaction on standard transactions: atomicity, effect, and no replay.
use dsn.Prelude.{
  ℕ, ◌+◌, ◌-◌, ◌≡◌, ◌≢◌, ◌≤◌, arith, some, inl, inr, Option-cases, length, ap, ◌∙◌, sym,
}
use dsn.Prelude.Map.{lookup, nat_eq}
use dsn.Error.{Error, ok, err, Result-cases}
use dsn.Exec.{◌>>=◌, >>=-eq_ok, >>=-eq_err}
use dsn.Types.Vote.{Crypto}
use dsn.Types.Transaction.{Transaction, standard}
use dsn.State.Account.{Account, new_account}
use dsn.State.Memory.{State, Ref, stored}
use dsn.State.Supply.{total, holds, IsUnique}
use dsn.State.Payload.{apply_transfer, apply_payload, amount_of, recipient_of}
use dsn.State.Applier.{check_transaction, settle, apply_transaction}
use dsn.State.Applier.Atomic.{check_transaction_lem, check_transaction_error, apply_transfer_error}
use dsn.State.Applier.Effect.{settled, settle_lem, Transferred, transfer_to_new, transfer_to_known}
use dsn.State.Applier.Keep.{apply_transfer-Keeps, settle_total}

-- A transaction whose nonce its sender has already is refused.
refused_again :
    (c : Crypto) (later : ℕ) (tx : Transaction) (u : State) (a : Account)
    → lookup tx.sender u.accounts ≡ some a
    → a.nonce ≡ tx.nonce
    → (x : Error) × (apply_transaction c later tx u ≡ (err x, u))
unfolding apply_transaction
refused_again c later tx u a found nonce = elim (Result-cases (check_transaction c later tx u).0) [
  | inl (r, e) ↦
      let (b, _, _, there, next, _) =
        check_transaction_lem c later tx r u (check_transaction c later tx u).1
          (ground (arith, e)) in
      absurd (ground (arith, found, there, next, nonce))
  | inr (x, e) ↦
      let same =
        check_transaction_error c later tx x u (check_transaction c later tx u).1
          (ground (arith, e)) in
      (x, ground (arith, e, same))
]

module _ (c : Crypto) (now : ℕ) (tx : Transaction) (is_standard : tx.tx_type ≡ standard) where
  payload_eq : (r : Ref) (s : State) → apply_payload c tx r s ≡ apply_transfer tx r s
  unfolding apply_payload
  payload_eq r s = ground arith

  -- The parts of a run after the checks: a payload that fails has changed nothing, and after one
  -- that succeeds the rest cannot fail.
  rest_error :
      (x : Error) (s t : State) (a : Account)
      → lookup tx.sender s.accounts ≡ some a
      → tx.max_fee ≤ a.balance
      → (apply_payload c tx (stored tx.sender) >>= settle tx) s ≡ (err x, t)
      → t ≡ s
  rest_error x s t a found covers e =
      elim (>>=-eq_err (apply_payload c tx (stored tx.sender)) (settle tx) s t x e) [
        | inl failed ↦
            apply_transfer_error tx s t tx.sender a found x
              (sym (payload_eq (stored tx.sender) s) ∙ failed)
        | inr (ref, s', paid, failed) ↦
            let (same, k) =
              apply_transfer-Keeps tx ref s s' tx.sender a found covers
                (sym (payload_eq (stored tx.sender) s) ∙ paid) in
            let (t', done) = settle_total tx k.account s' k.at k.covers in
            absurd (cc (failed, done, same))
      ]

  -- A standard transaction that fails leaves the state as it was.
  pub standard_atomic :
      (x : Error) (s t : State) → apply_transaction c now tx s ≡ (err x, t) → t ≡ s
  unfolding apply_transaction
  standard_atomic x s t e =
      elim (>>=-eq_err (check_transaction c now tx) (λ r. apply_payload c tx r >>= settle tx) s t x
        e) [
          | inl refused ↦ check_transaction_error c now tx x s t refused
          | inr (r, s', passed, rest) ↦
              let (a, same, ref, found, _, covers) = check_transaction_lem c now tx r s s' passed in
              rest_error x s t a found covers (ground arith)
        ]

  -- What the accounts are after a standard transaction with a transfer to another address.
  pub record Applied (receipt : ℕ) (s t : State) : Type 0 where
    pub receipt_is : receipt ≡ tx.intent_id
    pub covered : tx.max_fee + amount_of tx ≤ holds tx.sender s.accounts
    pub sender :
        holds tx.sender t.accounts + (tx.max_fee + amount_of tx) ≡ holds tx.sender s.accounts
    pub recipient :
        holds (recipient_of tx) t.accounts ≡ holds (recipient_of tx) s.accounts + amount_of tx
    pub others :
        (j : ℕ) → j ≢ tx.sender → j ≢ recipient_of tx → lookup j t.accounts ≡ lookup j s.accounts
    pub burnt : total t.accounts + tx.max_fee ≡ total s.accounts
    pub unique : IsUnique t.accounts
    pub kvstore : t.kvstore ≡ s.kvstore

  applied :
      (receipt : ℕ) (ref : Ref) (s s' t : State) (a b : Account)
      → lookup tx.sender s.accounts ≡ some a
      → holds (recipient_of tx) s.accounts ≡ b.balance
      → recipient_of tx ≢ tx.sender
      → IsUnique s.accounts
      → Transferred tx ref s s' tx.sender a b
      → settle tx ref s' ≡ (ok receipt, t)
      → Applied receipt s t
  applied receipt ref s s' t a b found before ne u h e =
      let a' : Account = record a { balance = a.balance - amount_of tx } in
      let at_sender : lookup tx.sender s'.accounts ≡ some a' =
        h.moves.at tx.sender ∙ ground arith in
      let end =
        settle_lem tx a' receipt s' t at_sender
          (ap (λ (r : Ref). settle tx r s') (sym h.same) ∙ e) in
      let writes = end.2 in
      let k = tx.sender in
      let r = recipient_of tx in
      record {
        receipt_is = end.1;
        covered = ground (arith, found, h.covers);
        sender = ground (arith, found, h.covers, writes.at k);
        recipient = ground (arith, writes.at r, h.moves.at r, before);
        others = λ j jk jr. ground (arith, writes.at j, h.moves.at j);
        burnt = ground (
          arith,
          found,
          before,
          at_sender,
          h.covers,
          end.0,
          writes.total (h.moves.unique u),
          h.moves.total u,
        );
        unique = writes.unique (h.moves.unique u);
        kvstore = end.3 ∙ h.kvstore;
      }

  -- Let a standard transaction with a payload of at least 28 bytes succeed, on accounts that
  -- list no address twice, for a recipient that is not the sender. Then the sender, who had the
  -- fee and the amount, has paid both, the recipient, who is created if need be, has got the
  -- amount, every third account and the key-value store are as they were, and the fee has left
  -- the sum of all balances.
  pub standard-Applied :
      (receipt : ℕ) (s t : State)
      → 28 ≤ length tx.payload
      → recipient_of tx ≢ tx.sender
      → IsUnique s.accounts
      → apply_transaction c now tx s ≡ (ok receipt, t)
      → Applied receipt s t
  unfolding apply_transaction
  standard-Applied receipt s t full ne u e =
      let (r, s1, passed, rest) =
        >>=-eq_ok (check_transaction c now tx) (λ r. apply_payload c tx r >>= settle tx) s t receipt
          e in
      let (a, same, is_ref, found, _, covers) = check_transaction_lem c now tx r s s1 passed in
      let (ref, s2, paid, done) = >>=-eq_ok (apply_payload c tx r) (settle tx) s1 t receipt rest in
      let transferred : apply_transfer tx (stored tx.sender) s ≡ (ok ref, s2) =
        sym (payload_eq (stored tx.sender) s) ∙ ground (arith, same, is_ref, paid) in
      elim (Option-cases (lookup (recipient_of tx) s.accounts)) [
        | inl absent ↦
            applied receipt ref s s2 t a (new_account (recipient_of tx) 0) found
              (unfold new_account in ground arith) ne u
              (transfer_to_new tx ref s s2 tx.sender a found ne full transferred absent) done
        | inr (b, there) ↦
            applied receipt ref s s2 t a b found (ground arith) ne u
              (transfer_to_known tx ref s s2 tx.sender a found ne full transferred b there) done
      ]

  -- The sender's account after a standard transaction has the transaction's nonce.
  nonce_after :
      (receipt : ℕ) (s t : State)
      → apply_transaction c now tx s ≡ (ok receipt, t)
      → (a : Account) × (lookup tx.sender t.accounts ≡ some a) × (a.nonce ≡ tx.nonce)
  unfolding apply_transaction
  nonce_after receipt s t e =
      let (r, s1, passed, rest) =
        >>=-eq_ok (check_transaction c now tx) (λ r. apply_payload c tx r >>= settle tx) s t receipt
          e in
      let (a, same, is_ref, found, nonce, covers) = check_transaction_lem c now tx r s s1 passed in
      let (ref, s2, paid, done) = >>=-eq_ok (apply_payload c tx r) (settle tx) s1 t receipt rest in
      let transferred : apply_transfer tx (stored tx.sender) s ≡ (ok ref, s2) =
        sym (payload_eq (stored tx.sender) s) ∙ ground (arith, same, is_ref, paid) in
      let (same_ref, k) = apply_transfer-Keeps tx ref s s2 tx.sender a found covers transferred in
      let end =
        settle_lem tx k.account receipt s2 t k.at
          (ap (λ (x : Ref). settle tx x s2) (sym same_ref) ∙ done) in
      (settled tx k.account, end.2.at tx.sender ∙ ground arith, ground (arith, k.nonce, nonce))

  -- A standard transaction that has been applied is refused in every state in which its sender's
  -- account is still what it was after it, at any time, and leaves that state as it is.
  pub standard_no_replay :
      (receipt later : ℕ) (s t u : State)
      → apply_transaction c now tx s ≡ (ok receipt, t)
      → lookup tx.sender u.accounts ≡ lookup tx.sender t.accounts
      → (x : Error) × (apply_transaction c later tx u ≡ (err x, u))
  standard_no_replay receipt later s t u e same =
      let (a, found, nonce) = nonce_after receipt s t e in
      refused_again c later tx u a (same ∙ found) nonce
