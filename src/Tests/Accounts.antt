-- ===== src/Tests/Accounts.antt =====
-- Transfers, transactions and snapshots on a state of two accounts.
use dsn.Prelude.{ℕ, ◌+◌, ◌-◌, ◌≡◌, ◌≢◌, ◌≤◌, refl, [], ◌∷◌, ◌++◌, true, some, none, Bool, arith}
use dsn.Prelude.Map.{lookup, insert, remove, nat_eq}
use dsn.Error.{Error, ok, err, nonce_mismatch}
use dsn.Bytes.{Bytes, put_be, be_value}
use dsn.Types.Vote.{Crypto}
use dsn.Types.Transaction.{Transaction, validate}
use dsn.State.Account.{Account, add_balance, sub_balance, increment_nonce}
use dsn.Types.Amount.{add, sub}
use dsn.Types.Timestamp.{validate_timestamp}
use dsn.State.Memory.{
  get_account, load, credit, debit, update, bump_nonce, set_account, State, Snapshot,
}
use dsn.State.Transitions.{transfer, get_or_new}
use dsn.State.Payload.{apply_payload, apply_transfer, recipient_of}
use dsn.State.Transitions.Conserve.{Paid, transfer_pays}
use dsn.State.Applier.{apply_transaction, check_transaction, settle}
use dsn.State.Applier.Standard.{Applied, standard-Applied, standard_atomic, standard_no_replay}

-- A digest that is constant and a check that accepts.
abbrev crypto : Crypto
crypto = record { sha256 = λ _. 1; verify = λ _ _ _. true }

abbrev pub account : ℕ → ℕ → ℕ → Account
account address balance nonce = record {
  address = address;
  balance = balance;
  nonce = nonce;
  storage_root = 0;
  code_hash = 0;
  permissions = 0;
  public_key = 12;
}

abbrev two_accounts : State
two_accounts = record {
  accounts = (3, account 3 500 0) ∷ (4, account 4 20 7) ∷ [];
  kvstore = [];
  snapshots = [];
}

-- Twenty bytes of an address and eight of an amount: 100 to the address 4.
abbrev pay_four : Bytes
pay_four =
    0 ∷ 0 ∷ 0 ∷ 0 ∷ 0 ∷ 0 ∷ 0 ∷ 0 ∷ 0 ∷ 0 ∷ 0 ∷ 0 ∷ 0 ∷ 0 ∷ 0 ∷ 0 ∷ 0 ∷ 0 ∷ 0 ∷ 4 ∷ 0 ∷ 0 ∷ 0 ∷ 0
    ∷ 0 ∷ 0 ∷ 0 ∷ 100 ∷ []

abbrev pub payment : ℕ → Transaction
payment nonce = record {
  version = 1;
  chain_id = 7;
  intent_id = 11;
  sender = 3;
  nonce = nonce;
  payload = pay_four;
  constraints = [];
  max_fee = 10;
  gas_limit = 0;
  timestamp = 1000;
  signature = 9 ∷ [];
  tx_type = 0;
}

abbrev after : State
after = (apply_transaction crypto 1000 (payment 1) two_accounts).1

pays : apply_transaction crypto 1000 (payment 1) two_accounts ≡ (ok 11, after)
unfolding apply_transaction check_transaction validate put_be validate_timestamp get_account lookup
    load apply_payload apply_transfer add be_value get_or_new credit debit insert remove update
    add_balance sub_balance sub settle bump_nonce increment_nonce set_account
pays = refl

out_of_order : (apply_transaction crypto 1000 (payment 5) two_accounts).0 ≡ err nonce_mismatch
unfolding apply_transaction check_transaction validate put_be validate_timestamp get_account lookup
    load apply_payload apply_transfer add be_value get_or_new credit debit insert remove update
    add_balance sub_balance sub settle bump_nonce increment_nonce set_account
out_of_order = refl

to_four : recipient_of (payment 1) ≡ 4
unfolding be_value
to_four = refl

standard-Applied_example : Applied crypto 1000 (payment 1) refl 11 two_accounts after
unfolding lookup
standard-Applied_example =
    standard-Applied crypto 1000 (payment 1) refl 11 two_accounts after (omega arith)
      (λ h. ground (arith, h, to_four)) (refl, (refl, tt)) pays

standard_no_replay_example :
    (x : Error) × (apply_transaction crypto 1001 (payment 1) after ≡ (err x, after))
standard_no_replay_example =
    standard_no_replay crypto 1000 (payment 1) refl 11 1001 two_accounts after after pays refl

standard_atomic_example : (apply_transaction crypto 1000 (payment 5) two_accounts).1 ≡ two_accounts
standard_atomic_example =
    standard_atomic crypto 1000 (payment 5) refl nonce_mismatch two_accounts
      (apply_transaction crypto 1000 (payment 5) two_accounts).1 (ground (arith, out_of_order))

transfer_pays_example :
    Paid 3 4 100 two_accounts.accounts (transfer 3 4 100 two_accounts).1.accounts
    × ((transfer 3 4 100 two_accounts).1.kvstore ≡ [])
unfolding lookup transfer dsn.State.Memory.get_account dsn.State.Transitions.get_or_new
    dsn.State.Memory.load dsn.State.Memory.debit dsn.Types.Amount.sub dsn.State.Memory.credit
    dsn.Prelude.Map.insert dsn.Prelude.Map.remove dsn.Types.Amount.add dsn.State.Memory.set_account
transfer_pays_example =
    transfer_pays 3 4 100 two_accounts (transfer 3 4 100 two_accounts).1 (λ h. ground arith)
      (refl, (refl, tt)) refl
