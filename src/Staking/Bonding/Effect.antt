-- ===== src/Staking/Bonding/Effect.antt =====
-- What Slash and Bond do to a stored validator, the bonded total and the accounts.
use dsn.Prelude.{ℕ, ◌+◌, ◌-◌, ◌≡◌, ◌≤◌, arith, some, true, ◌==◌, ◌||◌, leb, if◌then◌else◌}
use mathlib.Core.Path.{subst}
use dsn.Prelude.Map.{lookup, insert, nat_eq, lookup-insert}
use dsn.Error.{ok}
use dsn.Exec.{◌>>◌}
use dsn.Types.Amount.{Amount, IsAmount, add, sub}
use dsn.State.Account.{Account, sub_balance}
use dsn.State.Memory.{State, get_bytes, get_account, load, debit, set_account}
use dsn.State.Supply.{total, IsUnique, Writes, Writes-insert, Writes-trans}
use dsn.Staking.Validator.{Validator, IsSizedValidator, pending, active}
use dsn.Staking.Registry.{
  with_voting_power, update_validator, total_bonded, set_total_bonded, get_validator,
}
use dsn.Staking.Bonding.{bond, slash}
use dsn.Staking.Bonding.Restake.{Holds, with_stake, with_stake-IsSized, restake}

-- What Slash takes: the amount, or the whole stake where that is less.
abbrev pub taken : Amount → Validator → Amount
taken amount v = if leb amount v.bonded_stake then amount else v.bonded_stake

-- Where the bonded total covers the validator's stake, Slash succeeds and returns what it took:
-- the stake and the total go down by that, never below zero, and no account changes.
pub slash_takes :
    (id : ℕ) (amount : Amount) (v : Validator) (bonded : Amount) (s : State)
    → Holds id v bonded s
    → v.bonded_stake ≤ bonded
    → (t : State) × (slash id amount s ≡ (ok (taken amount v), t))
      × Holds id
          (with_voting_power (with_stake (v.bonded_stake - taken amount v) v))
          (bonded - taken amount v)
          t
      × (t.accounts ≡ s.accounts)
unfolding slash sub
slash_takes id amount v bonded s h covered =
    let w = with_stake (v.bonded_stake - taken amount v) v in
    let z : IsSizedValidator w =
      with_stake-IsSized (v.bonded_stake - taken amount v) v
        (ground (arith, h.stored.sized.bonded_stake)) h.stored.sized in
    let (t, done, now, kept) = restake w (bonded - taken amount v) s z (ground (arith, h.sized)) in
    (
      t,
      ground (arith, h.stored.found, h.total, done, covered),
      subst (λ i. Holds i (with_voting_power w) (bonded - taken amount v) t) h.stored.keyed now,
      kept,
    )

-- What Bond needs to succeed.
pub record CanBond (from : ℕ) (amount : Amount) (a : Account) (v : Validator) (bonded : Amount)
    (s : State) : Type 0 where
  pub found : lookup from s.accounts ≡ some a
  pub covered : amount ≤ a.balance
  pub accepting : (v.status == pending || v.status == active) ≡ true
  pub stake_fits : IsAmount (v.bonded_stake + amount)
  pub total_fits : IsAmount (bonded + amount)

abbrev pub charged : Amount → Account → Account
charged amount a = record a { balance = a.balance - amount }

-- The state after the account is charged and stored.
abbrev after_charge : ℕ → Amount → Account → State → State
after_charge from amount a s = record s {
  accounts = insert from (charged amount a) (insert from (charged amount a) s.accounts);
}

charge_Holds :
    (from : ℕ) (amount : Amount) (a : Account) (id : ℕ) (v : Validator) (bonded : Amount)
    (s : State)
    → Holds id v bonded s
    → Holds id v bonded (after_charge from amount a s)
unfolding get_validator get_bytes total_bonded
charge_Holds from amount a id v bonded s h = record {
  stored = record {
    found = ground (arith, h.stored.found);
    keyed = h.stored.keyed;
    sized = h.stored.sized;
  };
  total = ground (arith, h.total);
  sized = h.sized;
}

bond_charges :
    (from id : ℕ) (amount : Amount) (a : Account) (v : Validator) (bonded : Amount) (s : State)
    → Holds id v bonded s
    → CanBond from amount a v bonded s
    → (t : State)
    → (set_total_bonded (bonded + amount)
          >> update_validator (with_stake (v.bonded_stake + amount) v))
        (after_charge from amount a s)
      ≡ (ok tt, t)
    → bond from id amount s ≡ (ok (v.bonded_stake + amount), t)
unfolding bond get_account load debit sub_balance set_account add sub
bond_charges from id amount a v bonded s h b t done =
    let h' = charge_Holds from amount a id v bonded s h in
    ground (
      arith,
      h.stored.found,
      h'.total,
      b.found,
      b.covered,
      b.accepting,
      b.stake_fits,
      b.total_fits,
      done,
      lookup-insert from from (charged amount a) s.accounts,
    )

-- On accounts that list no address twice, Bond succeeds where the sender covers the amount, the
-- stored validator is pending or active, and the new stake and bonded total fit 128 bits. It
-- then moves the amount from the sender's account into the validator's stake and the bonded
-- total: every other account is as before, and the balances and the bonded total have the same
-- sum as before.
pub bond_moves :
    (from id : ℕ) (amount : Amount) (a : Account) (v : Validator) (bonded : Amount) (s : State)
    → Holds id v bonded s
    → CanBond from amount a v bonded s
    → IsUnique s.accounts
    → (t : State) × (bond from id amount s ≡ (ok (v.bonded_stake + amount), t))
      × Holds id (with_voting_power (with_stake (v.bonded_stake + amount) v)) (bonded + amount) t
      × ((k : ℕ)
          → lookup k t.accounts
            ≡ (if from == k then some (charged amount a) else lookup k s.accounts))
      × (total t.accounts + (bonded + amount) ≡ total s.accounts + bonded)
bond_moves from id amount a v bonded s h b u =
    let w = with_stake (v.bonded_stake + amount) v in
    let z : IsSizedValidator w =
      with_stake-IsSized (v.bonded_stake + amount) v b.stake_fits h.stored.sized in
    let (t, done, now, kept) =
      restake w (bonded + amount) (after_charge from amount a s) z b.total_fits in
    let once = insert from (charged amount a) s.accounts in
    let written : Writes from (charged amount a) s.accounts (insert from (charged amount a) once) =
      Writes-trans from (charged amount a) (charged amount a) s.accounts once _
        (Writes-insert from (charged amount a) s.accounts)
        (Writes-insert from (charged amount a) once) in
    (
      t,
      bond_charges from id amount a v bonded s h b t done,
      subst (λ i. Holds i (with_voting_power w) (bonded + amount) t) h.stored.keyed now,
      λ k. rw kept (written.at k),
      ground (arith, kept, written.total u, b.found, b.covered),
    )
