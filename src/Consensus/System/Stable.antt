-- ===== src/Consensus/System/Stable.antt =====
-- Within an epoch every block starts with the same epoch and the same validator set.
use mathlib.Core.Path.{subst}
use dsn.Prelude.{
  ℕ, ◌+◌, ◌≡◌, ◌≢◌, ◌∙◌, sym, ap, some, Bool, true, false, if◌then◌else◌, wrap64, arith, inl, inr,
  Option-cases,
}
use dsn.Error.{Result, ok, Result-cases}
use dsn.Exec.{◌>>=◌, pure, >>=-eq_ok}
use dsn.Types.Vote.{Crypto}
use dsn.State.Key.{key_eq, key_current_epoch, snapshot_key}
use dsn.State.Memory.{State, get_bytes}
use dsn.State.Payload.{counter}
use dsn.State.Keeps.{counter-state}
use dsn.Staking.Epoch.{current_epoch, is_epoch_boundary}
use dsn.Consensus.Snapshot.{ValidatorSnapshot}
use dsn.Consensus.Snapshot.Codec.{IsSizedSnapshot}
use dsn.Consensus.Snapshot.Stored.{
  get_snapshot, create_snapshot, create_snapshot-get, create_snapshot-keeps,
}
use dsn.Consensus.System.{snapshot_for, settle_epoch, open_epoch, begin_block}
use dsn.Consensus.System.Next.{epoch_same, end_epoch-next}

-- What asking for the snapshot of the current epoch leaves.
asked :
    (c : Crypto) (epoch : ℕ) (s t : State) (snap : ValidatorSnapshot)
    → current_epoch s ≡ (ok epoch, s)
    → snapshot_for c epoch s ≡ (ok snap, t)
    → IsSizedSnapshot snap
    → (current_epoch t ≡ (ok epoch, t)) × (get_snapshot epoch t ≡ ok (some snap))
unfolding snapshot_for
asked c epoch s t snap he h z = elim (Result-cases (get_snapshot epoch s)) [
  | inr (x, q) ↦ ground (arith, h, q)
  | inl (found, q) ↦ elim (Option-cases found) [
    | inr (old, r) ↦
        let same : t ≡ s = ground (arith, h, q, r) in rw same (he, ground (arith, h, q, r))
    | inl r ↦
        let made : create_snapshot c epoch s ≡ (ok snap, t) = ground (arith, h, q, r) in
        let (got, _, _, _) = create_snapshot-get c epoch s t snap z made in
        let kept =
          create_snapshot-keeps c epoch s t snap key_current_epoch (ground arith) (ground arith)
            made in
        (epoch_same epoch s t kept he, got)
  ]
]

-- What the opening of an epoch has read.
opened :
    (c : Crypto) (epoch hash : ℕ) (s t : State)
    → open_epoch c s ≡ (ok (epoch, hash), t)
    → (snap : ValidatorSnapshot) × (current_epoch s ≡ (ok epoch, s))
      × (snapshot_for c epoch s ≡ (ok snap, t))
      × (snap.set_hash ≡ hash)
unfolding open_epoch current_epoch
opened c epoch hash s t h =
    let (n, s1, e1, h1) =
      >>=-eq_ok (counter key_current_epoch 0)
        (λ n. snapshot_for c n >>= λ snap. pure (n, snap.set_hash)) s t (epoch, hash) h in
    let same : s1 ≡ s =
      ap (λ (p : Result ℕ × State). p.1) (sym e1) ∙ counter-state key_current_epoch 0 s in
    let (snap, s2, e2, h2) =
      >>=-eq_ok (snapshot_for c n) (λ snap. pure (n, snap.set_hash)) s1 t (epoch, hash) h1 in
    let is : n ≡ epoch = ground (arith, h2) in
    let at_n : snapshot_for c n s ≡ (ok snap, t) =
      subst (λ x. snapshot_for c n x ≡ (ok snap, t)) same (ground (arith, e2, h2)) in
    let at_epoch : snapshot_for c epoch s ≡ (ok snap, t) =
      subst (λ n. snapshot_for c n s ≡ (ok snap, t)) is at_n in
    (snap, ground (arith, e1, same, is), at_epoch, ground (arith, h2))

found_again :
    (c : Crypto) (epoch : ℕ) (s : State) (snap : ValidatorSnapshot)
    → get_snapshot epoch s ≡ ok (some snap)
    → snapshot_for c epoch s ≡ (ok snap, s)
unfolding snapshot_for
found_again c epoch s snap h = ground (arith, h)

-- The settlement of an epoch raises it by one where the height is its last, and keeps it elsewhere.
settled :
    (height now : ℕ) (b : Bool) (s t : State)
    → settle_epoch height s ≡ (ok tt, t)
    → current_epoch s ≡ (ok now, s)
    → is_epoch_boundary height s ≡ (ok b, s)
    → current_epoch t ≡ (ok (if b then wrap64 (now + 1) else now), t)
unfolding settle_epoch
settled height now true s t h e hb = end_epoch-next height now s t (ground (arith, h, hb)) e
settled height now false s t h e hb = ground (arith, h, e, hb)

-- A state has kept the current epoch and the snapshot of an epoch.
pub record KeepsEpoch (epoch : ℕ) (t u : State) : Type 0 where
  pub current : get_bytes key_current_epoch u ≡ get_bytes key_current_epoch t
  pub snapshot : get_bytes (snapshot_key epoch) u ≡ get_bytes (snapshot_key epoch) t

snapshot_same :
    (epoch : ℕ) (t u : State) → KeepsEpoch epoch t u → get_snapshot epoch u ≡ get_snapshot epoch t
unfolding get_snapshot
snapshot_same epoch t u kept = ground (arith, kept.snapshot)

reopened :
    (c : Crypto) (epoch : ℕ) (u : State) (snap : ValidatorSnapshot)
    → current_epoch u ≡ (ok epoch, u)
    → get_snapshot epoch u ≡ ok (some snap)
    → open_epoch c u ≡ (ok (epoch, snap.set_hash), u)
unfolding open_epoch
reopened c epoch u snap he h = ground (arith, he, found_again c epoch u snap h)

begun :
    (c : Crypto) (later : ℕ) (u : State) (r : ℕ × ℕ)
    → later ≢ 0
    → is_epoch_boundary later u ≡ (ok false, u)
    → open_epoch c u ≡ (ok r, u)
    → begin_block c later u ≡ (ok r, u)
unfolding begin_block settle_epoch
begun c later u r lz lb h = ground (arith, lz, lb, h)

-- Let BeginBlock succeed at a height above the genesis block, with a snapshot whose fields fit their
-- types. Then the epoch that it gives is, where the height ends an epoch, the one after the current
-- epoch, modulo 2 ^ 64, and the current one elsewhere, and a snapshot with the hash that it gives
-- is stored for that epoch. At every height above the genesis block that does not end an epoch,
-- and in every state that has kept the current epoch and that snapshot, whatever transactions,
-- evidence and fees have changed besides, BeginBlock gives the same epoch and the same hash, and
-- changes nothing.
pub begin_block-stable :
    (c : Crypto) (height later epoch hash now : ℕ) (b : Bool) (s t u : State)
    → height ≢ 0
    → begin_block c height s ≡ (ok (epoch, hash), t)
    → current_epoch s ≡ (ok now, s)
    → is_epoch_boundary height s ≡ (ok b, s)
    → ((s' : State) (snap : ValidatorSnapshot)
        → settle_epoch height s ≡ (ok tt, s')
        → snapshot_for c epoch s' ≡ (ok snap, t)
        → IsSizedSnapshot snap)
    → later ≢ 0
    → is_epoch_boundary later u ≡ (ok false, u)
    → KeepsEpoch epoch t u
    → (epoch ≡ (if b then wrap64 (now + 1) else now))
      × ((snap : ValidatorSnapshot) × (get_snapshot epoch t ≡ ok (some snap))
          × (snap.set_hash ≡ hash))
      × (begin_block c later u ≡ (ok (epoch, hash), u))
unfolding begin_block
begin_block-stable c height later epoch hash now b s t u hz h e hb sized lz lb kept =
    let (_, s', hs, ho) =
      >>=-eq_ok (settle_epoch height) (λ _. open_epoch c) s t (epoch, hash)
        (ground (arith, hz, h)) in
    let (snap, he, hf, hh) = opened c epoch hash s' t ho in
    let (now_at, got) = asked c epoch s' t snap he hf (sized s' snap hs hf) in
    let again =
      reopened c epoch u snap (epoch_same epoch t u kept.current now_at)
        (snapshot_same epoch t u kept ∙ got) in
    (
      ground (arith, he, settled height now b s s' hs e hb),
      (snap, got, hh),
      begun c later u (epoch, hash) lz lb (ground (arith, again, hh)),
    )
