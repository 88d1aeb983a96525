-- ===== src/State/Supply.antt =====
-- The sum of all balances, and how a write of one account changes it.
use dsn.Prelude.{
  ℕ, ◌+◌, ◌≤◌, ◌≡◌, refl, [], ◌∷◌, Option, none, some, ◌==◌, if◌then◌else◌, arith, ◌∙◌, ==_iff,
}
use dsn.Prelude.Map.{lookup, insert, remove, nat_eq, lookup-remove, lookup-insert}
use dsn.State.Account.{Account}
use dsn.State.Memory.{Accounts}

abbrev pub total : Accounts → ℕ
total [] = 0
total ((_, a) ∷ m) = a.balance + total m

abbrev pub balance_of : Option Account → ℕ
balance_of none = 0
balance_of (some a) = a.balance

-- What an address holds; an address without an account holds nothing.
abbrev pub holds : ℕ → Accounts → ℕ
holds k m = balance_of (lookup k m)

-- No address is listed twice.
abbrev pub IsUnique : Accounts → Type 0
IsUnique [] = Unit
IsUnique ((k, _) ∷ m) = (lookup k m ≡ none) × IsUnique m

pub IsUnique-remove : (k : ℕ) (m : Accounts) → IsUnique m → IsUnique (remove k m)
unfolding remove
IsUnique-remove k [] h = tt
IsUnique-remove k ((j, a) ∷ m) h = ground (arith, IsUnique-remove k m h.1, lookup-remove k j m)

pub IsUnique-insert : (k : ℕ) (a : Account) (m : Accounts) → IsUnique m → IsUnique (insert k a m)
unfolding insert
IsUnique-insert k a m h = (lookup-remove k k m ∙ ground arith, IsUnique-remove k m h)

remove_absent : (k : ℕ) (m : Accounts) → lookup k m ≡ none → total (remove k m) ≡ total m
unfolding remove lookup
remove_absent k [] h = refl
remove_absent k ((j, a) ∷ m) h = ground (arith, remove_absent k m)

total-remove : (k : ℕ) (m : Accounts) → IsUnique m → total (remove k m) + holds k m ≡ total m
unfolding remove lookup
total-remove k [] h = omega arith
total-remove k ((j, a) ∷ m) h = ground (arith, total-remove k m h.1, remove_absent k m, ==_iff j k)

pub total-insert :
    (k : ℕ) (a : Account) (m : Accounts)
    → IsUnique m
    → total (insert k a m) + holds k m ≡ total m + a.balance
unfolding insert
total-insert k a m h = omega (arith, total-remove k m h)

pub holds-le_total : (k : ℕ) (m : Accounts) → holds k m ≤ total m
unfolding lookup
holds-le_total k [] = omega arith
holds-le_total k ((j, a) ∷ m) = ground (arith, holds-le_total k m)

-- `m'` is `m` with the account `a` at `k`, as far as lookups and the sum of the balances tell.
pub record Writes (k : ℕ) (a : Account) (m m' : Accounts) : Type 0 where
  pub at : (j : ℕ) → lookup j m' ≡ (if k == j then some a else lookup j m)
  pub total : IsUnique m → total m' + holds k m ≡ total m + a.balance
  pub unique : IsUnique m → IsUnique m'

pub Writes-insert : (k : ℕ) (a : Account) (m : Accounts) → Writes k a m (insert k a m)
Writes-insert k a m = record {
  at = λ j. lookup-insert k j a m;
  total = total-insert k a m;
  unique = IsUnique-insert k a m;
}

pub Writes-trans :
    (k : ℕ) (a b : Account) (m m' m'' : Accounts)
    → Writes k a m m'
    → Writes k b m' m''
    → Writes k b m m''
Writes-trans k a b m m' m'' p q = record {
  at = λ j. ground (arith, p.at j, q.at j);
  total = λ u. ground (arith, p.total u, q.total (p.unique u), p.at k);
  unique = λ u. q.unique (p.unique u);
}
