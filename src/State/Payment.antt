-- ===== src/State/Payment.antt =====
-- The step that the rewards and the treasury share: the account at an address, or a new one, is
-- credited and written (staking/treasury.go, staking/rewards.go).
use dsn.Prelude.{
  ℕ, ◌+◌, ◌^◌, ◌<◌, ◌≡◌, refl, ◌==◌, if◌then◌else◌, arith, inl, inr, Option-cases, ==_iff,
}
use dsn.Prelude.Map.{lookup, insert, nat_eq, lookup-insert}
use dsn.Error.{ok}
use dsn.Exec.{◌>>=◌}
use dsn.Types.Amount.{Amount, add}
use dsn.State.Account.{Account, new_account, add_balance}
use dsn.State.Memory.{State, Action, get_account, load, update, credit, set_account}
use dsn.State.Supply.{total, holds, IsUnique, Writes, Writes-insert, Writes-trans}
use dsn.State.Transitions.{get_or_new}

unfoldable pub pay : ℕ → Amount → Action (Unit {0})
unfolding get_or_new credit set_account
pay addr amount = do acc ← get_or_new addr; acc' ← credit acc amount; set_account addr acc'

-- From `s` to `t` one address has got an amount, out of nothing, and nothing else has changed.
pub record IsPaid (addr : ℕ) (amount : Amount) (s t : State) : Type 0 where
  pub holds_eq :
      (k : ℕ)
      → holds k t.accounts ≡ (if addr == k then holds k s.accounts + amount else holds k s.accounts)
  pub total_eq : total t.accounts ≡ total s.accounts + amount
  pub unique : IsUnique t.accounts
  pub kept : t.kvstore ≡ s.kvstore

pay-Writes :
    (addr : ℕ) (amount : Amount) (a : Account) (s t : State)
    → holds addr s.accounts ≡ a.balance
    → IsUnique s.accounts
    → Writes addr (record a { balance = a.balance + amount }) s.accounts t.accounts
    → t.kvstore ≡ s.kvstore
    → IsPaid addr amount s t
pay-Writes addr amount a s t h u w kept = record {
  holds_eq = λ k. ground (arith, w.at k, h, ==_iff addr k);
  total_eq = ground (arith, w.total u, h);
  unique = w.unique u;
  kept = kept;
}

-- A payment to an address that stays below 2 ^ 128 succeeds.
pub pay_lem :
    (addr : ℕ) (amount : Amount) (s : State)
    → holds addr s.accounts + amount < 2 ^ 128
    → IsUnique s.accounts
    → (t : State) × (pay addr amount s ≡ (ok tt, t)) × IsPaid addr amount s t
unfolding pay get_or_new get_account new_account load update credit set_account add_balance add
pay_lem addr amount s h u = elim (Option-cases (lookup addr s.accounts)) [
  | inl e ↦
      let a = new_account addr 0 in
      let b = record a { balance = a.balance + amount } in
      let t = record s { accounts = insert addr b s.accounts } in
      (
        t,
        ground (arith, e, h),
        pay-Writes addr amount a s t (ground (arith, e)) u (Writes-insert addr b s.accounts) refl,
      )
  | inr (a, e) ↦
      let b = record a { balance = a.balance + amount } in
      let m = insert addr b s.accounts in
      let t = record s { accounts = insert addr b m } in
      (
        t,
        ground (arith, e, h, lookup-insert addr addr b s.accounts),
        pay-Writes addr amount a s t (ground (arith, e)) u
            (Writes-trans addr b b s.accounts m (insert addr b m) (Writes-insert addr b s.accounts)
              (Writes-insert addr b m))
            refl,
      )
]
