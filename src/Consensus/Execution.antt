-- ===== src/Consensus/Execution.antt =====
-- What BuildBlock (consensus/block_builder.go) and ValidateBlock (consensus/block_validator.go) both
-- do: the start of a block, the execution of its transactions, and the roots. Arguments stand for
-- the clock that a transaction's own validation reads, for the contract VM, where there is one, and
-- for the Merkle root that Commit computes, which changes nothing else that is modelled.
use dsn.Prelude.{
  ℕ, ◌+◌, List, [], ◌∷◌, ◌++◌, Option, none, some, Bool, ltb, ◌==◌, ◌||◌, if◌then◌else◌, wrap64,
}
use dsn.Prelude.Sort.{sort}
use dsn.Error.{Result, ok, insufficient_gas_balance, ◌>>=◌ as bind}
use dsn.Exec.{◌>>=◌, ◌>>◌, pure, lift, raise_if}
use dsn.Bytes.{Bytes, put_be, written}
use dsn.Types.Vote.{Crypto}
use dsn.Types.Event.{Event}
use dsn.Types.Evidence.{Evidence}
use dsn.Types.Transaction.{Transaction, deploy_contract, call_contract}
use dsn.Types.Transaction.Codec.{encode_steps}
use dsn.Types.Contract.Deploy.{decode_deploy}
use dsn.Types.Contract.Call.{decode_call}
use dsn.State.Memory.{State, Action, get_account, load, debit, set_account}
use dsn.State.Applier.{apply_transaction}
use dsn.Consensus.Misbehaviour.{process_block_evidence}
use dsn.Consensus.System.{begin_block}

pub record ExecResult : Type 0 where
  pub reverted : Bool
  pub gas_used : ℕ
  pub events : List Event

pub record Env : Type 0 where
  pub crypto : Crypto
  pub now : ℕ
  pub root : State → Result ℕ
  -- vm.Execute, by the transaction, the height, the timestamp and the position in the block.
  pub vm : Option (Transaction → ℕ → ℕ → ℕ → Action ExecResult)

-- chargeGas and chargeGasForValidate: a token for a unit of gas.
unfoldable pub charge_gas : ℕ → ℕ → Action (Unit {0})
unfolding get_account load debit set_account
charge_gas sender gas_used = do
  acc ← get_account sender
  a ← load acc
  raise_if (ltb a.balance gas_used) insufficient_gas_balance
  acc' ← debit acc gas_used
  set_account sender acc'

-- DeployContract and CallContract: whether the payload is read.
unfoldable pub decode_contract : Transaction → Result (Unit {0})
unfolding decode_deploy decode_call
decode_contract tx =
    if tx.tx_type == deploy_contract
    then bind (decode_deploy tx.payload) (λ _. ok tt)
    else bind (decode_call tx.payload) (λ _. ok tt)

-- A contract's transaction: the events of a reverted one are dropped.
unfoldable pub run_contract :
    (Transaction → ℕ → ℕ → ℕ → Action ExecResult)
    → ℕ
    → ℕ
    → ℕ
    → Transaction
    → Action (ℕ × List Event)
unfolding decode_contract charge_gas
run_contract execute height timestamp index tx = do
  lift (decode_contract tx)
  result ← execute tx height timestamp index
  charge_gas tx.sender result.gas_used
  pure (tx.intent_id, (if result.reverted then [] else result.events))

abbrev pub is_contract : Transaction → Bool
is_contract tx = tx.tx_type == deploy_contract || tx.tx_type == call_contract

-- The transaction of the loops, with its receipt and its events.
unfoldable pub run_applied : Env → Transaction → Action (ℕ × List Event)
unfolding apply_transaction
run_applied e tx = do receipt ← apply_transaction e.crypto e.now tx; pure (receipt, [])

unfoldable pub run_tx : Env → ℕ → ℕ → ℕ → Transaction → Action (ℕ × List Event)
unfolding run_contract run_applied
run_tx e height timestamp index tx = elim e.vm [
  | none ↦ run_applied e tx
  | some execute ↦
      if is_contract tx then run_contract execute height timestamp index tx else run_applied e tx
]

pub record Totals : Type 0 where
  pub fees : ℕ
  pub receipts : List ℕ
  pub events : List Event

abbrev pub add_totals : Transaction → ℕ × List Event → Totals → Totals
add_totals tx (receipt, events) rest = record {
  fees = wrap64 (tx.max_fee + rest.fees);
  receipts = receipt ∷ rest.receipts;
  events = events ++ rest.events;
}

-- The loops, from a position in the block: the first error ends them.
unfoldable pub run_txs : Env → ℕ → ℕ → ℕ → List Transaction → Action Totals
unfolding run_tx
run_txs e height timestamp index [] = pure (record { fees = 0; receipts = []; events = [] })
run_txs e height timestamp index (tx ∷ txs) = do
  r ← run_tx e height timestamp index tx
  rest ← run_txs e height timestamp (index + 1) txs
  pure (add_totals tx r rest)

-- The evidence, and then BeginBlock.
unfoldable pub start_block : Env → List Evidence → ℕ → Action (ℕ × ℕ)
unfolding process_block_evidence begin_block
start_block e evidence height = do
  process_block_evidence e.crypto evidence height
  begin_block e.crypto height

-- The digests of the transactions. Encode's error is dropped: one that cannot be encoded is hashed
-- as far as it is written.
unfoldable pub tx_digests : Crypto → List Transaction → Bytes
unfolding encode_steps written
tx_digests c [] = []
tx_digests c (tx ∷ txs) = put_be 32 (c.sha256 (written (encode_steps tx))) ++ tx_digests c txs

unfoldable pub compute_tx_root : Crypto → List Transaction → ℕ
unfolding tx_digests
compute_tx_root c [] = 0
compute_tx_root c (tx ∷ txs) = c.sha256 (tx_digests c (tx ∷ txs))

unfoldable pub concat_words : ℕ → List ℕ → Bytes
concat_words n [] = []
concat_words n (x ∷ xs) = put_be n x ++ concat_words n xs

unfoldable pub compute_hashes_root : Crypto → List ℕ → ℕ
unfolding concat_words
compute_hashes_root c [] = 0
compute_hashes_root c (h ∷ hs) = c.sha256 (concat_words 32 (h ∷ hs))

abbrev pub sorted_validators : List ℕ → List ℕ
sorted_validators = sort ltb

-- validator_set.go: ValidatorRoot, over the addresses in order.
unfoldable pub validator_root : Crypto → List ℕ → ℕ
unfolding concat_words
validator_root c [] = 0
validator_root c (v ∷ vs) = c.sha256 (concat_words 20 (sorted_validators (v ∷ vs)))
