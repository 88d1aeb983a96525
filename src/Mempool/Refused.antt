-- ===== src/Mempool/Refused.antt =====
-- What Submit adds to the pool, and what it does not look at.
use dsn.Prelude.{
  ℕ, ◌+◌, ◌<◌, ◌≤◌, ◌≡◌, ◌≢◌, ◌⊎◌, true, false, Bool-cases, Option-cases, refl, ap, ◌∙◌, sym, none,
  some, ◌==◌, if◌then◌else◌, wrap64, arith, inl, inr,
}
use mathlib.Core.Path.{subst}
use dsn.Prelude.Map.{nat_eq, lookup-insert}
use dsn.Error.{Result, ok, err, Result-cases}
use dsn.Types.Vote.{Crypto}
use dsn.Types.Transaction.{Transaction, validator_registration}
use dsn.Types.Transaction.Registration.{registration}
use dsn.Types.Amount.{Amount, add}
use dsn.State.Account.{Account}
use dsn.Mempool.Pool.{PendingTx, Mempool, get, count}
use dsn.Mempool.Submit.{
  Context, known_nonce, is_signed, required, check_first, expected_nonce, check_submit, add_tx,
  persist, admit, submit,
}
use dsn.Mempool.Kept.{check_submit_lem, submit-cases, persist-cases}

-- Where the pool has a last nonce of the sender, the transaction has the next one. Where it has
-- none, the sender's account exists and covers the fee, the transaction has the nonce after the
-- account's, and its signature is the account's unless it is a registration.
abbrev pub Follows : Context → Transaction → Mempool → Type 0
Follows x tx mp =
    ((known_nonce tx.sender mp ≢ 0) × (tx.nonce ≡ wrap64 (known_nonce tx.sender mp + 1)))
    ⊎ ((acc : Account) × (known_nonce tx.sender mp ≡ 0)
        × (x.get_account tx.sender ≡ ok acc)
        × (tx.max_fee ≤ acc.balance)
        × (tx.nonce ≡ wrap64 (acc.nonce + 1))
        × ((tx.tx_type == validator_registration) ≡ false
            → x.crypto.verify acc.public_key tx.intent_id tx.signature ≡ true))

required_le : (tx : Transaction) (need : Amount) → required tx ≡ ok need → tx.max_fee ≤ need
unfolding required add
required_le tx need h = elim (Bool-cases (tx.tx_type == validator_registration)) [
  | inr q ↦ ground (arith, h, q)
  | inl q ↦ elim (Result-cases (registration tx)) [
    | inr (e, r) ↦ ground (arith, h, q, r)
    | inl (m, r) ↦ elim (Option-cases m) [
      | inl o ↦ ground (arith, h, q, r, o)
      | inr (msg, o) ↦ ground (arith, h, q, r, o)
    ]
  ]
]

check_first-Follows :
    (x : Context) (tx : Transaction) (mp : Mempool) (n : ℕ)
    → known_nonce tx.sender mp ≡ 0
    → check_first x tx ≡ ok n
    → tx.nonce ≡ wrap64 (n + 1)
    → Follows x tx mp
unfolding check_first
check_first-Follows x tx mp n z h next = elim (Result-cases (x.get_account tx.sender)) [
  | inr (e, q) ↦ ground (arith, h, q)
  | inl (acc, q) ↦ elim (Result-cases (required tx)) [
    | inr (e, r) ↦ absurd (ground (arith, h, q, r))
    | inl (need, r) ↦
        let signed : is_signed x.crypto acc tx ≡ true = ground (arith, h, q) in
        let covered : need ≤ acc.balance = ground (arith, h, q, r, signed) in
        let after : n ≡ acc.nonce = ground (arith, h, q, r, signed) in
        inr (
          acc,
          z,
          q,
          ground (arith, covered, required_le tx need r),
          ground (arith, next, after),
          λ other. unfold is_signed in ground (arith, signed, other),
        )
  ]
]

expected_nonce-Follows :
    (x : Context) (tx : Transaction) (mp : Mempool) (n : ℕ)
    → expected_nonce x tx mp ≡ ok n
    → tx.nonce ≡ wrap64 (n + 1)
    → Follows x tx mp
unfolding expected_nonce
expected_nonce-Follows x tx mp n h next = elim (Bool-cases (known_nonce tx.sender mp == 0)) [
  | inl q ↦ check_first-Follows x tx mp n (ground (arith, q)) (ground (arith, h, q)) next
  | inr q ↦ inl ((λ z. ground (arith, q, z)), ground (arith, h, q, next))
]

-- What a successful submission has done.
pub record IsAdded (x : Context) (tx : Transaction) (mp mp' : Mempool) : Type 0 where
  pub was_new : get tx.intent_id mp ≡ none
  pub had_room : count mp < mp.max_size
  pub get_eq : (id : ℕ) → get id mp' ≡ (if tx.intent_id == id then some tx else get id mp)
  pub nonce_eq :
      (sender : ℕ)
      → known_nonce sender mp' ≡ (if tx.sender == sender then tx.nonce else known_nonce sender mp)
  pub follows : Follows x tx mp

added :
    (x : Context) (tx : Transaction) (mp : Mempool)
    → check_submit x tx mp ≡ ok tt
    → IsAdded x tx mp (add_tx x.now tx mp)
unfolding add_tx get count
added x tx mp c =
    let (room, new, (n, expected, next)) = check_submit_lem x tx mp c in
    let pt : PendingTx = record { tx = tx; submitted = x.now } in
    record {
      was_new = ground (arith, new);
      had_room = room;
      get_eq = λ id. ground (arith, lookup-insert tx.intent_id id pt mp.txs);
      nonce_eq = λ sender. ground (arith, lookup-insert tx.sender sender tx.nonce mp.next_nonce);
      follows = expected_nonce-Follows x tx mp n expected next;
    }

-- A submission that succeeds found room, a new id, and the nonce after the sender's last in the
-- pool; without such a nonce it found the sender's account, with the balance for the fee, the nonce
-- before the transaction's and, unless for a registration, the key that signed the transaction.
-- After it the pool holds the transaction beside what it held, and takes the transaction's nonce
-- as its sender's last.
pub submit-IsAdded :
    (x : Context) (tx : Transaction) (mp mp' : Mempool)
    → submit x tx mp ≡ (ok tt, mp')
    → IsAdded x tx mp mp'
submit-IsAdded x tx mp mp' h = elim (submit-cases x tx mp) [
  | inr (e, _, q) ↦ ground (arith, h, q)
  | inl (c, q) ↦ elim (persist-cases x tx (add_tx x.now tx mp)) [
    | inr (e, p) ↦ ground (arith, h, q, p)
    | inl p ↦ subst (IsAdded x tx mp) (ground (arith, h, q, p)) (added x tx mp c)
  ]
]

-- A nonce in the pool's books is the one to follow, whatever the account has.
pub expected_known :
    (x : Context) (tx : Transaction) (mp : Mempool)
    → known_nonce tx.sender mp ≢ 0
    → expected_nonce x tx mp ≡ ok (known_nonce tx.sender mp)
unfolding expected_nonce
expected_known x tx mp h = ground (arith, h)

admit_same :
    (x : Context) (c : Crypto) (accounts : ℕ → Result Account) (tx : Transaction)
    (r : Result (Unit {0})) (mp : Mempool)
    → admit (record x { crypto = c; get_account = accounts }) tx r mp ≡ admit x tx r mp
unfolding admit persist
admit_same x c accounts tx (ok _) mp = refl
admit_same x c accounts tx (err e) mp = refl

check_same :
    (x : Context) (c : Crypto) (accounts : ℕ → Result Account) (tx : Transaction) (mp : Mempool)
    → known_nonce tx.sender mp ≢ 0
    → check_submit (record x { crypto = c; get_account = accounts }) tx mp ≡ check_submit x tx mp
unfolding check_submit
check_same x c accounts tx mp h =
    let x' : Context = record x { crypto = c; get_account = accounts } in
    let same : expected_nonce x' tx mp ≡ expected_nonce x tx mp =
      expected_known x' tx mp h ∙ sym (expected_known x tx mp h) in
    rw same refl

-- A sender with a transaction in the pool's books gets the next ones in unverified: whether they
-- are accepted, and the pool that results, depend neither on the signature check nor on the
-- accounts.
pub submit_unverified :
    (x : Context) (c : Crypto) (accounts : ℕ → Result Account) (tx : Transaction) (mp : Mempool)
    → known_nonce tx.sender mp ≢ 0
    → submit (record x { crypto = c; get_account = accounts }) tx mp ≡ submit x tx mp
unfolding submit
submit_unverified x c accounts tx mp h =
    ap (λ r. admit (record x { crypto = c; get_account = accounts }) tx r mp)
      (check_same x c accounts tx mp h)
    ∙ admit_same x c accounts tx (check_submit x tx mp) mp
