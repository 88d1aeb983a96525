-- ===== src/Consensus/Snapshot/Stored.antt =====
-- staking/snapshot.go: the snapshots that the key-value store keeps, one for an epoch.
use dsn.Prelude.{
  ℕ, ◌+◌, ◌≡◌, List, [], ◌∷◌, Option, none, some, map, false, leb, if◌then◌else◌, wrap64, arith,
  inl, inr, Bool-cases, ◌∙◌, refl, ◌⊎◌, ap, sym,
}
use mathlib.Core.Path.{subst}
use dsn.Prelude.Map.{lookup, insert, map_laws, lookup-insert}
use dsn.Error.{Result, ok, err, ◌>>=◌ as bind, Result-cases}
use dsn.Exec.{◌>>=◌, ◌>>◌, pure, lift, >>=-eq_ok}
use dsn.Bytes.{Bytes, put_be, writes}
use dsn.Types.Vote.{Crypto}
use dsn.State.Key.{Key, key_eq, snapshot_key, key_latest_epoch}
use dsn.State.Memory.{State, Action, get_bytes, set_bytes}
use dsn.State.Payload.{counter}
use dsn.Staking.Validator.{Validator, encode_validator}
use dsn.Staking.Active.{get_active_validators}
use dsn.Staking.Active.Order.{active-state}
use dsn.Consensus.Snapshot.{ValidatorSnapshot}
use dsn.Consensus.Snapshot.Codec.{
  marshal_snapshot, unmarshal_snapshot, IsSizedSnapshot, unmarshal_snapshot-marshal_snapshot,
}

-- The counter of CreateSnapshot, a uint64.
unfoldable pub sum_power : ℕ → List Validator → ℕ
sum_power total [] = total
sum_power total (v ∷ vs) = sum_power (wrap64 (total + v.voting_power)) vs

unfoldable pub compute_validator_set_hash : Crypto → List Validator → Result ℕ
unfolding encode_validator writes
compute_validator_set_hash c [] = ok 0
compute_validator_set_hash c (v ∷ vs) =
    bind (writes (map encode_validator (v ∷ vs))) (λ bs. ok (c.sha256 bs))

unfoldable pub latest_snapshot_epoch : Action ℕ
unfolding counter
latest_snapshot_epoch = counter key_latest_epoch 0

unfoldable pub set_latest_snapshot_epoch : ℕ → Action (Unit {0})
unfolding set_bytes latest_snapshot_epoch
set_latest_snapshot_epoch epoch = do
  current ← latest_snapshot_epoch
  if leb epoch current then pure tt else set_bytes key_latest_epoch (put_be 8 epoch)

-- The two writes of CreateSnapshot.
unfoldable pub store_snapshot : ValidatorSnapshot → Action (Unit {0})
unfolding marshal_snapshot set_bytes
store_snapshot snap = do
  data_bytes ← lift (marshal_snapshot snap)
  set_bytes (snapshot_key snap.epoch) data_bytes
  set_latest_snapshot_epoch snap.epoch

abbrev frozen : ℕ → List Validator → ℕ → ValidatorSnapshot
frozen epoch vs hash = record {
  epoch = epoch;
  validators = vs;
  total_power = sum_power 0 vs;
  set_hash = hash;
}

-- CreateSnapshot, after the active validators are known.
unfoldable pub freeze : Crypto → ℕ → List Validator → Action ValidatorSnapshot
unfolding sum_power compute_validator_set_hash
freeze c epoch vs = do
  hash ← lift (compute_validator_set_hash c vs)
  store_snapshot (frozen epoch vs hash)
  pure (frozen epoch vs hash)

unfoldable pub create_snapshot : Crypto → ℕ → Action ValidatorSnapshot
unfolding freeze
create_snapshot c epoch = do vs ← get_active_validators; freeze c epoch vs

-- GetSnapshot: no snapshot is no error.
unfoldable pub get_snapshot : ℕ → State → Result (Option ValidatorSnapshot)
unfolding get_bytes unmarshal_snapshot
get_snapshot epoch s = elim (get_bytes (snapshot_key epoch) s) [
  | none ↦ ok none
  | some bs ↦ bind (unmarshal_snapshot bs) (λ snap. ok (some snap))
]

-- The latest epoch is written or it stays; nothing else changes.
set_latest_lem :
    (epoch : ℕ) (s t : State) (u : Unit {0})
    → set_latest_snapshot_epoch epoch s ≡ (ok u, t)
    → (t ≡ s) ⊎ (t ≡ record s { kvstore = insert key_latest_epoch (put_be 8 epoch) s.kvstore })
unfolding set_latest_snapshot_epoch set_bytes
set_latest_lem epoch s t u h = go (counter key_latest_epoch 0 s) refl
  where
    go :
        (r : Result ℕ × State)
        → counter key_latest_epoch 0 s ≡ r
        → (t ≡ s) ⊎ (t ≡ record s { kvstore = insert key_latest_epoch (put_be 8 epoch) s.kvstore })
    go (err x, s') e = ground (arith, h, e)
    go (ok current, s') e =
        let same : s ≡ (counter key_latest_epoch 0 s).1 =
          unfold counter get_bytes in ground arith in
        elim (Bool-cases (leb epoch current)) [
          | inl q ↦ inl (ground (arith, h, e, q, same))
          | inr q ↦ inr (ground (arith, h, e, q, same))
        ]

found :
    (epoch : ℕ) (t : State) (bs : Bytes) (snap : ValidatorSnapshot)
    → lookup (snapshot_key epoch) t.kvstore ≡ some bs
    → unmarshal_snapshot bs ≡ ok snap
    → get_snapshot epoch t ≡ ok (some snap)
unfolding get_snapshot get_bytes
found epoch t bs snap h read = ground (arith, h, read)

store_snapshot-get :
    (snap : ValidatorSnapshot) (s t : State) (u : Unit {0})
    → IsSizedSnapshot snap
    → store_snapshot snap s ≡ (ok u, t)
    → get_snapshot snap.epoch t ≡ ok (some snap)
unfolding store_snapshot set_bytes
store_snapshot-get snap s t u z h = elim (Result-cases (marshal_snapshot snap)) [
  | inr (x, e) ↦ ground (arith, h, e)
  | inl (bs, e) ↦
      let s' : State = record s { kvstore = insert (snapshot_key snap.epoch) bs s.kvstore } in
      let read = unmarshal_snapshot-marshal_snapshot snap bs z e in
      elim (set_latest_lem snap.epoch s' t u (ground (arith, h, e))) [
        | inl q ↦ found snap.epoch t bs snap (rw q (simp map_laws (ground arith))) read
        | inr q ↦ found snap.epoch t bs snap (rw q (simp map_laws (ground arith))) read
      ]
]

frozen_lem :
    (c : Crypto) (epoch : ℕ) (vs : List Validator) (s t : State) (snap : ValidatorSnapshot)
    → freeze c epoch vs s ≡ (ok snap, t)
    → (snap.epoch ≡ epoch)
      × (snap.validators ≡ vs)
      × (snap.total_power ≡ sum_power 0 vs)
      × (store_snapshot snap s ≡ (ok tt, t))
unfolding freeze
frozen_lem c epoch vs s t snap h = elim (Result-cases (compute_validator_set_hash c vs)) [
  | inr (x, e) ↦ ground (arith, h, e)
  | inl (hash, e) ↦ elim (Result-cases (store_snapshot (frozen epoch vs hash) s).0) [
    | inr (x, e') ↦ ground (arith, h, e, e')
    | inl (tt, e') ↦
        let eq : snap ≡ frozen epoch vs hash = ground (arith, h, e, e') in
        rw eq (refl, refl, refl, ground (arith, h, e, e'))
  ]
]

-- Nothing but the snapshot's two keys changes.
store_snapshot-keeps :
    (snap : ValidatorSnapshot) (s t : State) (u : Unit {0}) (k : Key)
    → key_eq.beq (snapshot_key snap.epoch) k ≡ false
    → key_eq.beq key_latest_epoch k ≡ false
    → store_snapshot snap s ≡ (ok u, t)
    → get_bytes k t ≡ get_bytes k s
unfolding store_snapshot set_bytes get_bytes
store_snapshot-keeps snap s t u k h1 h2 h = elim (Result-cases (marshal_snapshot snap)) [
  | inr (x, e) ↦ ground (arith, h, e)
  | inl (bs, e) ↦
      let s' : State = record s { kvstore = insert (snapshot_key snap.epoch) bs s.kvstore } in
      let first = lookup-insert (snapshot_key snap.epoch) k bs s.kvstore in
      elim (set_latest_lem snap.epoch s' t u (ground (arith, h, e))) [
        | inl q ↦ ground (arith, first, h1, ap (λ (x : State). lookup k x.kvstore) q)
        | inr q ↦ ground (
          arith,
          first,
          h1,
          h2,
          lookup-insert key_latest_epoch k (put_be 8 snap.epoch) s'.kvstore,
          ap (λ (x : State). lookup k x.kvstore) q,
        )
      ]
]

pub create_snapshot-keeps :
    (c : Crypto) (epoch : ℕ) (s t : State) (snap : ValidatorSnapshot) (k : Key)
    → key_eq.beq (snapshot_key epoch) k ≡ false
    → key_eq.beq key_latest_epoch k ≡ false
    → create_snapshot c epoch s ≡ (ok snap, t)
    → get_bytes k t ≡ get_bytes k s
unfolding create_snapshot
create_snapshot-keeps c epoch s t snap k h1 h2 h =
    let (vs, s1, e1, made) = >>=-eq_ok get_active_validators (freeze c epoch) s t snap h in
    let (fe, _, _, fs) = frozen_lem c epoch vs s1 t snap made in
    let at_epoch : key_eq.beq (snapshot_key snap.epoch) k ≡ false =
      ap (λ n. key_eq.beq (snapshot_key n) k) fe ∙ h1 in
    store_snapshot-keeps snap s1 t tt k at_epoch h2 fs ∙ ap (get_bytes k) (active-state s s1 vs e1)

-- Where CreateSnapshot succeeds and the snapshot's fields fit their types, GetSnapshot finds for
-- the epoch the snapshot that was created, which has that epoch, the sum of the powers modulo
-- 2 ^ 64, and the active validators of the state before.
pub create_snapshot-get :
    (c : Crypto) (epoch : ℕ) (s t : State) (snap : ValidatorSnapshot)
    → IsSizedSnapshot snap
    → create_snapshot c epoch s ≡ (ok snap, t)
    → (get_snapshot epoch t ≡ ok (some snap))
      × (snap.epoch ≡ epoch)
      × (snap.total_power ≡ sum_power 0 snap.validators)
      × ((get_active_validators s).0 ≡ ok snap.validators)
unfolding create_snapshot
create_snapshot-get c epoch s t snap z h =
    let (vs, s1, e1, h1) = >>=-eq_ok get_active_validators (freeze c epoch) s t snap h in
    let (fe, fv, fp, fs) = frozen_lem c epoch vs s1 t snap h1 in
    (
      subst (λ e. get_snapshot e t ≡ ok (some snap)) fe (store_snapshot-get snap s1 t tt z fs),
      fe,
      fp ∙ ap (sum_power 0) (sym fv),
      ground (arith, e1, fv),
    )
