-- ===== src/Consensus/Validation.antt =====
-- consensus/block_validator.go: ValidateBlock, in the order of its checks.
pub mod Replayed
use dsn.Prelude.{
  ℕ, ◌+◌, List, [], ◌∷◌, Option, none, some, Bool, length, ltb, ◌==◌, not, ◌&&◌, if◌then◌else◌,
  wrap64,
}
use dsn.Error.{
  Result, ok, err, wrong_height, wrong_previous_hash, wrong_proposer, invalid_block_signature,
  wrong_validator_root, state_root_mismatch, tx_root_mismatch, fee_summary_mismatch, wrong_epoch,
  no_snapshot, events_root_mismatch, wrong_validator_set_hash,
}
use dsn.Exec.{◌>>=◌, ◌>>◌, pure, lift, gets, raise, raise_if}
use dsn.Types.Block.{BlockHeader, Block, FeeSummary, new_fee_summary, compute_events_root}
use dsn.State.Memory.{State, Action}
use dsn.Staking.Validator.{Validator}
use dsn.Staking.Active.{get_active_validators}
use dsn.Staking.Epoch.{current_epoch}
use dsn.Consensus.Snapshot.{ValidatorSnapshot}
use dsn.Consensus.Snapshot.Stored.{get_snapshot}
use dsn.Consensus.Proposer.{weighted_proposer_at_height}
use dsn.Consensus.Certificate.{validate_commit_proof}
use dsn.Consensus.System.{finalize_block}
use dsn.Consensus.Execution.{Env, Totals, run_txs, start_block, compute_tx_root, validator_root}
use dsn.Consensus.Building.{consensus_ids}

abbrev pub same_fees : FeeSummary → FeeSummary → Bool
same_fees a b =
    a.total_fees == b.total_fees
    && a.validator_share == b.validator_share
    && a.burn_share == b.burn_share
    && a.treasury_share == b.treasury_share

-- The checks before the transactions run, against the state after BeginBlock.
unfoldable pub check_proposer : Block → List Validator → Action (Unit {0})
check_proposer block vs = if length vs == 0 then raise wrong_proposer else (do
  expected ← lift (weighted_proposer_at_height block.header.height vs)
  raise_if (not (block.header.proposer == expected)) wrong_proposer)

-- GetSnapshot's error counts as no snapshot here.
unfoldable pub epoch_snapshot : ℕ → Action ValidatorSnapshot
epoch_snapshot epoch s = elim (get_snapshot epoch s) [
  | err _ ↦ (err no_snapshot, s)
  | ok found ↦ elim found [ none ↦ (err no_snapshot, s) | some snap ↦ (ok snap, s) ]
]

unfoldable pub check_started : Env → Block → Action ℕ
check_started e block = do
  vs ← get_active_validators
  epoch ← current_epoch
  raise_if (not (block.header.epoch == epoch)) wrong_epoch
  snap ← epoch_snapshot epoch
  raise_if (not (block.header.validator_set_hash == snap.set_hash)) wrong_validator_set_hash
  check_proposer block vs
  raise_if (not (block.header.validator_root == validator_root e.crypto (consensus_ids vs)))
      wrong_validator_root
  raise_if (length block.signature == 0) invalid_block_signature
  pure epoch

-- The checks after the transactions have run.
unfoldable pub check_executed : Env → Block → ℕ → Totals → Action (Unit {0})
check_executed e block epoch totals = do
  raise_if (not (compute_events_root e.crypto totals.events == block.header.events_root))
      events_root_mismatch
  root ← λ s. (e.root s, s)
  raise_if (not (root == block.header.state_root)) state_root_mismatch
  raise_if (not (compute_tx_root e.crypto block.transactions == block.header.tx_root))
      tx_root_mismatch
  raise_if (not (same_fees (new_fee_summary totals.fees) block.fee_summary)) fee_summary_mismatch
  λ s. (validate_commit_proof e.crypto block.header block.commit_proof s epoch, s)

-- What follows the checks of the started block.
unfoldable pub execute_block : Env → Block → ℕ → Action (Unit {0})
execute_block e block epoch = do
  totals ← run_txs e block.header.height block.header.timestamp 0 block.transactions
  finalize_block (new_fee_summary totals.fees)
  check_executed e block epoch totals

unfoldable pub validate_block : Env → Block → BlockHeader → ℕ → Action (Unit {0})
validate_block e block parent expected_prev_hash = do
  raise_if (not (block.header.height == wrap64 (parent.height + 1))) wrong_height
  raise_if (ltb 0 block.header.height && not (block.header.previous_hash == expected_prev_hash))
      wrong_previous_hash
  _ ← start_block e block.evidence block.header.height
  epoch ← check_started e block
  execute_block e block epoch
