-- ===== src/Consensus/System.antt =====
-- consensus/system.go: what happens to the state before and after the transactions of a block.
pub mod Next
pub mod Stable
use dsn.Prelude.{ℕ, none, some, Option, Bool, ◌==◌, if◌then◌else◌}
use dsn.Exec.{◌>>=◌, ◌>>◌, pure}
use dsn.Types.Vote.{Crypto}
use dsn.State.Memory.{State, Action}
use dsn.Staking.Epoch.{
  blocks_per_epoch, current_epoch, epoch_at_height, is_epoch_boundary, process_epoch_transition,
}
use dsn.Staking.Economics.{issue_epoch_tokens}
use dsn.Staking.Economics.EpochRewards.{distribute_validator_rewards}
use dsn.Staking.Rewards.{distribute_rewards}
use dsn.Consensus.Snapshot.{ValidatorSnapshot}
use dsn.Consensus.Snapshot.Stored.{get_snapshot, create_snapshot}
use dsn.Types.Block.{FeeSummary}

-- The end of an epoch: its issuance, the rewards, and the transition. A block takes a second.
unfoldable pub end_epoch : ℕ → Action (Unit {0})
end_epoch height = do
  completed ← epoch_at_height height
  blocks ← blocks_per_epoch
  _ ← issue_epoch_tokens completed 1 blocks
  distribute_validator_rewards completed
  process_epoch_transition height

-- The snapshot of an epoch, which is created where it is first asked for.
unfoldable pub snapshot_for : Crypto → ℕ → Action ValidatorSnapshot
snapshot_for c epoch = do
  found ← λ s. (get_snapshot epoch s, s)
  elim found [ some snap ↦ pure snap | none ↦ create_snapshot c epoch ]

-- The end of the epoch, where the height is the last of it.
unfoldable pub settle_epoch : ℕ → Action (Unit {0})
settle_epoch height = do
  boundary ← is_epoch_boundary height
  if boundary then end_epoch height else pure tt

-- The epoch and the hash of the validator set that hold for the block.
unfoldable pub open_epoch : Crypto → Action (ℕ × ℕ)
open_epoch c = do epoch ← current_epoch; snap ← snapshot_for c epoch; pure (epoch, snap.set_hash)

unfoldable pub begin_block : Crypto → ℕ → Action (ℕ × ℕ)
begin_block c height = if height == 0 then pure (0, 0) else (do settle_epoch height; open_epoch c)

-- The shares of the treasury and of the burn are dropped.
unfoldable pub finalize_block : FeeSummary → Action (Unit {0})
finalize_block fees =
    if fees.total_fees == 0 then pure tt else (do _ ← distribute_rewards fees.total_fees; pure tt)
