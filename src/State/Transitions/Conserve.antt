-- ===== src/State/Transitions/Conserve.antt =====
-- A transfer moves what it says and conserves the sum of the balances.
use dsn.Prelude.{ℕ, ◌+◌, ◌-◌, ◌≡◌, ◌≢◌, ◌≤◌, refl, arith, none, some, inl, inr, Option-cases}
use dsn.Prelude.Map.{lookup, insert, nat_eq, lookup-insert}
use dsn.Error.{ok}
use dsn.Types.Amount.{Amount, add, sub}
use dsn.State.Account.{Account, new_account}
use dsn.State.Memory.{State, Accounts, get_account, set_account, credit, debit}
use dsn.State.Supply.{total, holds, IsUnique, IsUnique-insert, total-insert}
use dsn.State.Transitions.{transfer, get_or_new}

-- From `m` to `m'` the amount has moved from the one address to the other, and nothing else has
-- changed.
pub record Paid (from to : ℕ) (amount : Amount) (m m' : Accounts) : Type 0 where
  pub covered : amount ≤ holds from m
  pub debited : holds from m' ≡ holds from m - amount
  pub credited : holds to m' ≡ holds to m + amount
  pub others : (k : ℕ) → k ≢ from → k ≢ to → lookup k m' ≡ lookup k m
  pub total : total m' ≡ total m
  pub unique : IsUnique m'

abbrev debited : Amount → Account → Account
debited amount a = record a { balance = a.balance - amount }

abbrev credited : Amount → Account → Account
credited amount b = record b { balance = b.balance + amount }

-- What the code writes at the end: the sender and then the receiver.
abbrev paid : ℕ → ℕ → Amount → Account → Account → Accounts → Accounts
paid from to amount a b m = insert to (credited amount b) (insert from (debited amount a) m)

module _ (from to : ℕ) (amount : Amount) (a b : Account) (m : Accounts) (ne : from ≢ to)
    (found : lookup from m ≡ some a) (covered : amount ≤ a.balance) (unique : IsUnique m) where
  abbrev charged : Accounts
  charged = insert from (debited amount a) m

  charged-IsUnique : IsUnique charged
  charged-IsUnique = IsUnique-insert from (debited amount a) m unique

  total-charged : total charged + amount ≡ total m
  total-charged = ground (arith, total-insert from (debited amount a) m unique)

  -- A receiver that is not in the map is written once.
  pub Paid-new :
      lookup to m ≡ none
      → b.balance ≡ 0
      → Paid from to amount m
          (insert to (credited amount b) (insert from (debited amount a) charged))
  Paid-new absent zero_balance =
      let again = insert from (debited amount a) charged in
      let again_unique = IsUnique-insert from (debited amount a) charged charged-IsUnique in
      record {
        covered = rw found covered;
        debited = ground (
          arith,
          lookup-insert to from (credited amount b) again,
          lookup-insert from from (debited amount a) charged,
        );
        credited = ground (arith, lookup-insert to to (credited amount b) again);
        others = λ k kf kt. ground (
          arith,
          lookup-insert to k (credited amount b) again,
          lookup-insert from k (debited amount a) charged,
          lookup-insert from k (debited amount a) m,
        );
        total = ground (
          arith,
          total-charged,
          total-insert from (debited amount a) charged charged-IsUnique,
          total-insert to (credited amount b) again again_unique,
          lookup-insert from from (debited amount a) m,
          lookup-insert from to (debited amount a) charged,
          lookup-insert from to (debited amount a) m,
        );
        unique = IsUnique-insert to (credited amount b) again again_unique;
      }

  -- A receiver in the map is written through its pointer and then again.
  pub Paid-known :
      lookup to m ≡ some b
      → Paid from to amount m (
          insert to
            (credited amount b)
            (insert from (debited amount a) (insert to (credited amount b) charged)))
  Paid-known there =
      let once = insert to (credited amount b) charged in
      let once_unique = IsUnique-insert to (credited amount b) charged charged-IsUnique in
      let again = insert from (debited amount a) once in
      let again_unique = IsUnique-insert from (debited amount a) once once_unique in
      record {
        covered = rw found covered;
        debited = ground (
          arith,
          lookup-insert to from (credited amount b) again,
          lookup-insert from from (debited amount a) once,
        );
        credited = ground (arith, lookup-insert to to (credited amount b) again);
        others = λ k kf kt. ground (
          arith,
          lookup-insert to k (credited amount b) again,
          lookup-insert from k (debited amount a) once,
          lookup-insert to k (credited amount b) charged,
          lookup-insert from k (debited amount a) m,
        );
        total = ground (
          arith,
          total-charged,
          total-insert to (credited amount b) charged charged-IsUnique,
          total-insert from (debited amount a) once once_unique,
          total-insert to (credited amount b) again again_unique,
          lookup-insert from to (debited amount a) m,
          lookup-insert to from (credited amount b) charged,
          lookup-insert from from (debited amount a) m,
          lookup-insert from to (debited amount a) once,
          lookup-insert to to (credited amount b) charged,
        );
        unique = IsUnique-insert to (credited amount b) again again_unique;
      }

module _ (from to : ℕ) (amount : Amount) (s t : State) (ne : from ≢ to) (a : Account)
    (found : lookup from s.accounts ≡ some a) (done : transfer from to amount s ≡ (ok tt, t)) where
  transfer_new :
      lookup to s.accounts ≡ none
      → (amount ≤ a.balance)
        × (t ≡ record s {
          accounts =
              paid from to amount a (new_account to 0) (insert from (debited amount a) s.accounts);
        })
  unfolding transfer get_or_new get_account set_account credit debit add sub
  transfer_new new = ground (arith, lookup-insert from from (debited amount a) s.accounts)

  transfer_known :
      (b : Account)
      → lookup to s.accounts ≡ some b
      → (amount ≤ a.balance)
        × (t ≡ record s {
          accounts =
              paid from to amount a b
                (insert to (credited amount b) (insert from (debited amount a) s.accounts));
        })
  unfolding transfer get_or_new get_account set_account credit debit add sub
  transfer_known b there = ground (
    arith,
    lookup-insert from to (debited amount a) s.accounts,
    lookup-insert from from (debited amount a) s.accounts,
    lookup-insert to from (credited amount b) (insert from (debited amount a) s.accounts),
    lookup-insert to to (credited amount b) (insert from (debited amount a) s.accounts),
    lookup-insert from to (debited amount a)
        (insert to (credited amount b) (insert from (debited amount a) s.accounts)),
  )

-- On accounts that list no address twice, a transfer that succeeds between two different
-- addresses moves the amount, which the sender had, from the one to the other, which is created
-- if it was not there. Every third account, the sum of all balances and the key-value store are
-- as before.
pub transfer_pays :
    (from to : ℕ) (amount : Amount) (s t : State)
    → from ≢ to
    → IsUnique s.accounts
    → transfer from to amount s ≡ (ok tt, t)
    → Paid from to amount s.accounts t.accounts × (t.kvstore ≡ s.kvstore)
unfolding transfer get_account new_account
transfer_pays from to amount s t ne u e = elim (Option-cases (lookup from s.accounts)) [
  | inl absent ↦ ground arith
  | inr (a, found) ↦ elim (Option-cases (lookup to s.accounts)) [
    | inl new ↦
        let (covered, eq) = transfer_new from to amount s t ne a found e new in
        rw eq (
          Paid-new from to amount a (new_account to 0) s.accounts ne found covered u new refl,
          refl,
        )
    | inr (b, there) ↦
        let (covered, eq) = transfer_known from to amount s t ne a found e b there in
        rw eq (Paid-known from to amount a b s.accounts ne found covered u there, refl)
  ]
]
