-- ===== src/State/Applier/Repeated.antt =====
-- A registration of a validator that is there already.
use dsn.Prelude.{ℕ, ◌+◌, ◌-◌, ◌≡◌, ◌≤◌, arith, some}
use dsn.Prelude.Map.{lookup, insert, nat_eq}
use dsn.Error.{ok, err, validator_exists}
use dsn.Bytes.{Bytes}
use dsn.Types.Amount.{IsAmount, add, sub}
use dsn.Types.Vote.{Crypto}
use dsn.Types.Transaction.{Transaction, validator_registration}
use dsn.Types.Transaction.Registration.{RegistrationMsg, registration}
use dsn.State.Key.{validator_key}
use dsn.State.Account.{Account, sub_balance}
use dsn.State.Memory.{State, stored, load, debit, get_bytes}
use dsn.State.Payload.{apply_payload, apply_registration, check_registration, derive_consensus_id}
use dsn.State.Applier.{check_transaction, apply_transaction}

-- A registration that passes every check up to the one for an existing validator.
pub record IsRepeated (c : Crypto) (now : ℕ) (tx : Transaction) (msg : RegistrationMsg)
    (a : Account) (s : State) : Type 0 where
  pub is_registration : tx.tx_type ≡ validator_registration
  pub passes : check_transaction c now tx s ≡ (ok (stored tx.sender), s)
  pub carries : registration tx ≡ ok (some msg)
  pub allowed : check_registration tx msg s ≡ (ok tt, s)
  pub found : lookup tx.sender s.accounts ≡ some a
  pub covered : tx.max_fee + msg.stake ≤ a.balance
  pub fits : IsAmount (tx.max_fee + msg.stake)
  pub record_bytes : Bytes
  pub taken : get_bytes (validator_key (derive_consensus_id c msg.pub_key)) s ≡ some record_bytes

-- A registration that passes every other check, with a total cost that fits 128 bits, but whose
-- validator is there already, fails, yet the stake has left the sender's stored account; nothing
-- else has changed.
pub apply_transaction-repeated :
    (c : Crypto) (now : ℕ) (tx : Transaction) (msg : RegistrationMsg) (a : Account) (s : State)
    → IsRepeated c now tx msg a s
    → apply_transaction c now tx s ≡ (
      err validator_exists,
      record s {
        accounts = insert tx.sender (record a { balance = a.balance - msg.stake }) s.accounts;
      },
    )
unfolding apply_transaction apply_payload apply_registration load debit sub_balance add sub
    get_bytes
apply_transaction-repeated c now tx msg a s r =
    ground (
      arith, r.is_registration, r.passes, r.carries, r.allowed, r.found, r.covered, r.fits, r.taken,
    )
