-- ===== src/Consensus/Validation/Replayed.antt =====
-- A block that BuildBlock makes is one that ValidateBlock accepts from the same state, and it leads to
-- the same state.
use dsn.Prelude.{
  ℕ, ◌+◌, ◌≡◌, ◌≢◌, refl, sym, ap, ◌∙◌, List, [], ◌∷◌, Option, none, some, true, false, length,
  ◌==◌, wrap64, arith, ==_iff,
}
use mathlib.Core.Path.{subst⁻¹}
use dsn.Error.{Result, ok}
use dsn.Bytes.{Bytes}
use dsn.Types.Block.{BlockHeader, Block, FeeSummary, new_fee_summary, compute_events_root}
use dsn.Types.Commit.{CommitProof}
use dsn.Types.Event.{Event}
use dsn.State.Memory.{State}
use dsn.Staking.Validator.{Validator}
use dsn.Staking.Active.{get_active_validators}
use dsn.Staking.Epoch.{current_epoch}
use dsn.Consensus.Snapshot.{ValidatorSnapshot}
use dsn.Consensus.Snapshot.Stored.{get_snapshot}
use dsn.Consensus.Proposer.{weighted_proposer_at_height}
use dsn.Consensus.Certificate.{validate_commit_proof}
use dsn.Consensus.System.{finalize_block}
use dsn.Consensus.Execution.{Env, Totals, run_txs, start_block, compute_tx_root, validator_root}
use dsn.Consensus.Building.{BlockRequest, chosen, consensus_ids, assemble, build_block}
use dsn.Consensus.Validation.{
  same_fees, check_proposer, epoch_snapshot, check_started, check_executed, execute_block,
  validate_block,
}
use dsn.Consensus.Building.Built.{IsBuilt, built, run_txs_same, run_txs-events}

some-length :
    (height id : ℕ) (vs : List Validator)
    → weighted_proposer_at_height height vs ≡ ok id
    → (length vs == 0) ≡ false
unfolding weighted_proposer_at_height
some-length height id [] h = ground (arith, h)
some-length height id (v ∷ vs) h = ground arith

proposer_passes :
    (block : Block) (vs : List Validator) (s : State)
    → weighted_proposer_at_height block.header.height vs ≡ ok block.header.proposer
    → check_proposer block vs s ≡ (ok tt, s)
unfolding check_proposer
proposer_passes block vs s h = ground (
  arith,
  h,
  some-length block.header.height block.header.proposer vs h,
  ==_iff block.header.proposer block.header.proposer,
)

snapshot_passes :
    (epoch : ℕ) (snap : ValidatorSnapshot) (s : State)
    → get_snapshot epoch s ≡ ok (some snap)
    → epoch_snapshot epoch s ≡ (ok snap, s)
unfolding epoch_snapshot
snapshot_passes epoch snap s h = ground (arith, h)

module _ (e : Env) (p : BlockRequest) (started : ℕ × ℕ) where
  -- The checks before the transactions run pass.
  check_built :
      (s1 : State) (snap : ValidatorSnapshot) (vs : List Validator) (block : Block)
      → block.header.epoch ≡ started.0
      → block.header.validator_set_hash ≡ started.1
      → block.header.height ≡ p.height
      → block.header.proposer ≡ p.proposer
      → block.header.validator_root ≡ validator_root e.crypto (consensus_ids vs)
      → length block.signature ≢ 0
      → current_epoch s1 ≡ (ok started.0, s1)
      → get_snapshot started.0 s1 ≡ ok (some snap)
      → snap.set_hash ≡ started.1
      → get_active_validators s1 ≡ (ok vs, s1)
      → weighted_proposer_at_height p.height vs ≡ ok p.proposer
      → check_started e block s1 ≡ (ok started.0, s1)
  unfolding check_started
  check_built s1 snap vs block he hset hh hp hr hsig hce hsnap hhash hact hw =
      let at_block : weighted_proposer_at_height block.header.height vs ≡ ok block.header.proposer =
        ap (λ x. weighted_proposer_at_height x vs) hh ∙ hw ∙ ap (λ x. ok x) (sym hp) in
      ground (
        arith,
        hact,
        hce,
        hsig,
        proposer_passes block vs s1 at_block,
        snapshot_passes started.0 snap s1 hsnap,
        (==_iff block.header.epoch started.0).1 he,
        (==_iff block.header.validator_set_hash snap.set_hash).1 (hset ∙ sym hhash),
        (==_iff block.header.validator_root (validator_root e.crypto (consensus_ids vs))).1 hr,
      )

same_fees_refl : (a : FeeSummary) → same_fees a a ≡ true
same_fees_refl a = ground (
  arith,
  ==_iff a.total_fees a.total_fees,
  ==_iff a.validator_share a.validator_share,
  ==_iff a.burn_share a.burn_share,
  ==_iff a.treasury_share a.treasury_share,
)

executed_passes :
    (e : Env) (block : Block) (epoch root : ℕ) (totals : Totals) (s : State)
    → compute_events_root e.crypto totals.events ≡ block.header.events_root
    → e.root s ≡ ok root
    → root ≡ block.header.state_root
    → compute_tx_root e.crypto block.transactions ≡ block.header.tx_root
    → block.fee_summary ≡ new_fee_summary totals.fees
    → validate_commit_proof e.crypto block.header block.commit_proof s epoch ≡ ok tt
    → check_executed e block epoch totals s ≡ (ok tt, s)
unfolding check_executed
executed_passes e block epoch root totals s hev hr hroot htx hf hp = ground (
  arith,
  hr,
  hp,
  ap (λ f. same_fees (new_fee_summary totals.fees) f) hf
      ∙ same_fees_refl (new_fee_summary totals.fees),
  (==_iff (compute_events_root e.crypto totals.events) block.header.events_root).1 hev,
  (==_iff root block.header.state_root).1 hroot,
  (==_iff (compute_tx_root e.crypto block.transactions) block.header.tx_root).1 htx,
)

no_events-root :
    (e : Env) (events : List Event) → events ≡ [] → compute_events_root e.crypto events ≡ 0
unfolding compute_events_root
no_events-root e events h = ap (λ evs. compute_events_root e.crypto evs) h ∙ refl

execute_lem :
    (e : Env) (block : Block) (epoch : ℕ) (totals : Totals) (done : Unit {0}) (s1 s2 s3 : State)
    → run_txs e block.header.height block.header.timestamp 0 block.transactions s1 ≡ (ok totals, s2)
    → finalize_block (new_fee_summary totals.fees) s2 ≡ (ok done, s3)
    → check_executed e block epoch totals s3 ≡ (ok tt, s3)
    → execute_block e block epoch s1 ≡ (ok tt, s3)
unfolding execute_block
execute_lem e block epoch totals done s1 s2 s3 hr hf hc = ground (arith, hr, hf, hc)

-- The transactions run again, and the checks after them pass.
replayed :
    (e : Env) (sign : ℕ → Result Bytes) (p : BlockRequest) (started : ℕ × ℕ) (s1 t : State)
    (block : Block) (proof : Option CommitProof)
    → e.vm ≡ none
    → IsBuilt e sign p started s1 t block
    → validate_commit_proof e.crypto block.header proof t started.0 ≡ ok tt
    → execute_block e (record block { commit_proof = proof }) started.0 s1 ≡ (ok tt, t)
unfolding assemble
replayed e sign p started s1 t block proof hv b =
    subst⁻¹
      (λ (x : Block).
        validate_commit_proof e.crypto x.header proof t started.0 ≡ ok tt
        → execute_block e (record x { commit_proof = proof }) started.0 s1 ≡ (ok tt, t))
      b.block_eq
      (subst⁻¹
        (λ (u : State).
          validate_commit_proof e.crypto made.header proof u started.0 ≡ ok tt
          → execute_block e (record made { commit_proof = proof }) started.0 s1 ≡ (ok tt, u))
        b.end_eq again)
  where
    made : Block
    made = record (assemble e p started b.totals b.root b.vs) { signature = b.signature }

    no_events : b.totals.events ≡ []
    no_events = run_txs-events e p.height p.started_at 0 (chosen p) s1 b.s2 b.totals hv b.ran

    same_run :
        run_txs e p.height p.finished_at 0 (chosen p) s1
        ≡ run_txs e p.height p.started_at 0 (chosen p) s1
    same_run = ap (λ f. f s1) (run_txs_same e p.height p.finished_at p.started_at 0 (chosen p) hv)

    again :
        validate_commit_proof e.crypto made.header proof b.s3 started.0 ≡ ok tt
        → execute_block e (record made { commit_proof = proof }) started.0 s1 ≡ (ok tt, b.s3)
    again hp =
        execute_lem e (record made { commit_proof = proof }) started.0 b.totals b.done s1 b.s2 b.s3
          (same_run ∙ b.ran) b.finalized
          (executed_passes e (record made { commit_proof = proof }) started.0 b.root b.totals b.s3
            (no_events-root e b.totals.events no_events) b.rooted refl refl refl hp)

validate_lem :
    (e : Env) (block : Block) (parent : BlockHeader) (prev : ℕ) (started : ℕ × ℕ) (s s1 t : State)
    → block.header.height ≡ wrap64 (parent.height + 1)
    → block.header.previous_hash ≡ prev
    → start_block e block.evidence block.header.height s ≡ (ok started, s1)
    → check_started e block s1 ≡ (ok started.0, s1)
    → execute_block e block started.0 s1 ≡ (ok tt, t)
    → validate_block e block parent prev s ≡ (ok tt, t)
unfolding validate_block
validate_lem e block parent prev started s s1 t hh hp hs hc he = ground (
  arith,
  hs,
  hc,
  he,
  (==_iff block.header.height (wrap64 (parent.height + 1))).1 hh,
  (==_iff block.header.previous_hash prev).1 hp,
)

-- Let BuildBlock, without a contract VM, succeed on a state, for the height after a parent's, with
-- the proposer that the weights give for the active validators and a signature that is not empty.
-- Let the state after the evidence and BeginBlock record the epoch and have its snapshot, and let
-- the transactions leave the active validators as they were. With a commit proof that is accepted
-- at the end, ValidateBlock accepts the block from the same state, clock and Merkle root, and ends
-- in the state in which BuildBlock ended.
pub build_block-validate :
    (e : Env) (sign : ℕ → Result Bytes) (p : BlockRequest) (parent : BlockHeader) (started : ℕ × ℕ)
    (snap : ValidatorSnapshot) (vs : List Validator) (block : Block) (proof : Option CommitProof)
    (s s1 t : State)
    → e.vm ≡ none
    → p.height ≡ wrap64 (parent.height + 1)
    → start_block e p.evidence p.height s ≡ (ok started, s1)
    → current_epoch s1 ≡ (ok started.0, s1)
    → get_snapshot started.0 s1 ≡ ok (some snap)
    → snap.set_hash ≡ started.1
    → get_active_validators s1 ≡ (ok vs, s1)
    → weighted_proposer_at_height p.height vs ≡ ok p.proposer
    → build_block e sign p s ≡ (ok block, t)
    → get_active_validators t ≡ (ok vs, t)
    → length block.signature ≢ 0
    → validate_commit_proof e.crypto block.header proof t started.0 ≡ ok tt
    → validate_block e (record block { commit_proof = proof }) parent p.previous_hash s ≡ (ok tt, t)
unfolding assemble
build_block-validate e sign p parent started snap vs block proof s s1 t hv hh hs hce hsnap hhash
      hact hw h hkept hsig hp =
    let b = built e sign p started s s1 t block hs h in
    let same : ok b.vs ≡ ok vs =
      ap (λ x. x.0) (sym b.is_active ∙ ap get_active_validators (sym b.end_eq) ∙ hkept) in
    let body =
      check_built e p started s1 snap vs (record block { commit_proof = proof })
        (ap (λ (x : Block). x.header.epoch) b.block_eq)
        (ap (λ (x : Block). x.header.validator_set_hash) b.block_eq)
        (ap (λ (x : Block). x.header.height) b.block_eq)
        (ap (λ (x : Block). x.header.proposer) b.block_eq)
        (ap (λ (x : Block). x.header.validator_root) b.block_eq
          ∙ ap (λ ws. validator_root e.crypto (consensus_ids ws)) (ok-inj b.vs vs same))
        hsig hce hsnap hhash hact hw in
    validate_lem e (record block { commit_proof = proof }) parent p.previous_hash started s s1 t
      (ap (λ (x : Block). x.header.height) b.block_eq ∙ hh)
      (ap (λ (x : Block). x.header.previous_hash) b.block_eq)
      (ap (λ (x : Block). start_block e x.evidence x.header.height s) b.block_eq ∙ hs) body
      (replayed e sign p started s1 t block proof hv b hp)
  where
    ok-inj : (x y : List Validator) → ok x ≡ ok y → x ≡ y
    ok-inj x y q = cc
