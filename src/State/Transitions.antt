-- ===== src/State/Transitions.antt =====
-- state/transitions.go: Transfer, Mint and Burn on the in-memory state.
pub mod Conserve
use dsn.Prelude.{ℕ, ◌==◌, ltb, if◌then◌else◌}
use dsn.Error.{ok, err, insufficient_balance}
use dsn.Exec.{◌>>=◌, ◌>>◌, pure, raise_if}
use dsn.Types.Amount.{Amount}
use dsn.State.Account.{new_account}
use dsn.State.Memory.{Action, Ref, fresh, get_account, set_account, load, credit, debit}

-- The account at an address, or a new one that is not stored yet.
unfoldable pub get_or_new : ℕ → Action Ref
unfolding get_account new_account
get_or_new addr s = elim (get_account addr s).0 [
  | ok r ↦ (ok r, s)
  | err _ ↦ (ok (fresh (new_account addr 0)), s)
]

unfoldable pub transfer : ℕ → ℕ → Amount → Action (Unit {0})
transfer from to amount = if from == to then pure tt else do
  sender ← get_account from
  receiver ← get_or_new to
  a ← load sender
  raise_if (ltb a.balance amount) insufficient_balance
  sender' ← debit sender amount
  receiver' ← credit receiver amount
  set_account from sender'
  set_account to receiver'

unfoldable pub mint : ℕ → Amount → Action (Unit {0})
mint addr amount = do acc ← get_account addr; acc' ← credit acc amount; set_account addr acc'

unfoldable pub burn : ℕ → Amount → Action (Unit {0})
burn addr amount = do acc ← get_account addr; acc' ← debit acc amount; set_account addr acc'
