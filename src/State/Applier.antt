-- ===== src/State/Applier.antt =====
-- state/applier.go: ApplyTransaction. The clock that Validate reads is an argument; the hasher and
-- the height are not used by the code.
pub mod Atomic
pub mod Effect
pub mod Keep
pub mod Standard
pub mod Repeated
use dsn.Prelude.{ℕ, ◌+◌, ltb, ◌==◌, not, wrap64}
use dsn.Error.{invalid_signature, nonce_mismatch, insufficient_balance}
use dsn.Exec.{◌>>=◌, ◌>>◌, pure, lift, raise_if}
use dsn.Types.Vote.{Crypto}
use dsn.Types.Transaction.{Transaction, validate}
use dsn.State.Memory.{Action, Ref, get_account, load, debit, bump_nonce, set_account}
use dsn.State.Payload.{apply_payload}

-- Steps 1 to 5: the checks, which end with the sender's account.
unfoldable pub check_transaction : Crypto → ℕ → Transaction → Action Ref
check_transaction c now tx = do
  lift (validate now tx)
  sender ← get_account tx.sender
  a ← load sender
  raise_if (not (c.verify a.public_key tx.intent_id tx.signature)) invalid_signature
  raise_if (not (tx.nonce == wrap64 (a.nonce + 1))) nonce_mismatch
  raise_if (ltb a.balance tx.max_fee) insufficient_balance
  pure sender

-- Steps 7 to 9: the fee, the nonce and the write.
unfoldable pub settle : Transaction → Ref → Action ℕ
settle tx sender = do
  charged ← debit sender tx.max_fee
  bumped ← bump_nonce charged
  set_account tx.sender bumped
  pure tx.intent_id

unfoldable pub apply_transaction : Crypto → ℕ → Transaction → Action ℕ
apply_transaction c now tx = do
  sender ← check_transaction c now tx
  sender' ← apply_payload c tx sender
  settle tx sender'
