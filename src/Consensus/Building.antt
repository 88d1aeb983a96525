-- ===== src/Consensus/Building.antt =====
-- consensus/block_builder.go: BuildBlock. The signer and the two readings of the clock are arguments.
pub mod Built
use dsn.Prelude.{ℕ, ◌+◌, List, [], ◌∷◌, Option, none, Bool, map, take, ltb, ◌==◌, if◌then◌else◌}
use dsn.Prelude.Sort.{sort}
use dsn.Error.{Result, ok, err, ◌>>=◌ as bind}
use dsn.Exec.{◌>>=◌, ◌>>◌, pure, lift, gets}
use dsn.Bytes.{Bytes}
use dsn.Types.Block.{BlockHeader, Block, FeeSummary, new_fee_summary, header_hash}
use dsn.Types.Evidence.{Evidence}
use dsn.Types.Transaction.{Transaction}
use dsn.State.Memory.{State, Action}
use dsn.Staking.Validator.{Validator}
use dsn.Staking.Active.{get_active_validators}
use dsn.Consensus.System.{finalize_block}
use dsn.Consensus.Execution.{
  Env, Totals, run_txs, start_block, compute_tx_root, compute_hashes_root, validator_root,
}

-- The order of BuildBlock's sort.Slice: by sender, then by nonce. Two transactions of one sender with
-- the same nonce are tied, and their order in Go is not fixed.
abbrev pub runs_before : Transaction → Transaction → Bool
runs_before a b = if a.sender == b.sender then ltb a.nonce b.nonce else ltb a.sender b.sender

abbrev pub consensus_ids : List Validator → List ℕ
consensus_ids = map (λ v. v.consensus_id)

-- What BuildBlock is told of the block: the pending transactions are those that the pool offers.
pub record BlockRequest : Type 0 where
  pub height : ℕ
  pub previous_hash : ℕ
  pub proposer : ℕ
  pub pending : List Transaction
  pub max_txs : ℕ
  pub evidence : List Evidence
  pub started_at : ℕ
  pub finished_at : ℕ

-- The transactions of the block.
abbrev pub chosen : BlockRequest → List Transaction
chosen p = sort runs_before (take p.max_txs p.pending)

-- The block before it is signed. Its events root is not set.
unfoldable pub assemble : Env → BlockRequest → ℕ × ℕ → Totals → ℕ → List Validator → Block
assemble e p (epoch, set_hash) totals state_root vs = record {
  header = record {
    version = 1;
    height = p.height;
    previous_hash = p.previous_hash;
    state_root = state_root;
    tx_root = compute_tx_root e.crypto (chosen p);
    receipt_root = compute_hashes_root e.crypto totals.receipts;
    validator_root = validator_root e.crypto (consensus_ids vs);
    validator_set_hash = set_hash;
    epoch = epoch;
    timestamp = p.finished_at;
    proposer = p.proposer;
    events_root = 0;
  };
  transactions = chosen p;
  fee_summary = new_fee_summary totals.fees;
  signature = [];
  commit_proof = none;
  events = totals.events;
  evidence = p.evidence;
}

-- What follows the execution: the fees, the root, and the validators that are then active.
unfoldable pub build_executed : Env → BlockRequest → ℕ × ℕ → Totals → Action Block
build_executed e p started totals = do
  finalize_block (new_fee_summary totals.fees)
  root ← λ s. (e.root s, s)
  vs ← get_active_validators
  pure (assemble e p started totals root vs)

-- What follows the start of the block.
unfoldable pub build_started : Env → BlockRequest → ℕ × ℕ → Action Block
build_started e p started = do
  totals ← run_txs e p.height p.started_at 0 (chosen p)
  build_executed e p started totals

-- The signature of the header's hash.
unfoldable pub sign_block : Env → (ℕ → Result Bytes) → Block → Action Block
sign_block e sign block = do
  signature ← lift (sign (header_hash e.crypto block.header))
  pure (record block { signature = signature })

unfoldable pub build_block : Env → (ℕ → Result Bytes) → BlockRequest → Action Block
build_block e sign p = do
  started ← start_block e p.evidence p.height
  block ← build_started e p started
  sign_block e sign block
