-- ===== src/Consensus/System/Next.antt =====
-- The end of an epoch raises the epoch by one.
use dsn.Prelude.{
  ℕ, ◌+◌, ◌^◌, ◌<◌, ◌==◌, ◌≡◌, ◌∙◌, ap, not, arith, wrap64, inl, inr, Option-cases, take-whole,
}
use dsn.Prelude.Map.{lookup-insert}
use dsn.Error.{ok, epoch_mismatch}
use dsn.Exec.{◌>>=◌, ◌>>◌, pure, raise_if, >>=-eq_ok}
use dsn.Bytes.{put_be, be_value}
use dsn.Bytes.RoundTrip.{length-put_be, be_value-put_be}
use dsn.State.Key.{key_eq, key_current_epoch, key_blocks_per_epoch}
use dsn.State.Memory.{State, Action, get_bytes, set_bytes}
use dsn.State.Payload.{counter, uint64_of}
use dsn.State.Keeps.{Keeps, Keeps-pure, Keeps-if, Keeps-bind, Keeps-counter}
use dsn.Staking.Registry.{validator_count}
use dsn.Staking.Epoch.{
  blocks_per_epoch, current_epoch, set_current_epoch, epoch_of, epoch_at_height, activate_at,
  release_at, unjail_at, for_each_seq, process_epoch_transition,
}
use dsn.Staking.Economics.{issue_epoch_tokens}
use dsn.Staking.Economics.EpochRewards.{distribute_validator_rewards}
use dsn.Staking.Economics.Keeps.{
  IsOther, Keeps-issue_epoch_tokens, Keeps-distribute_validator_rewards,
}
use dsn.Consensus.System.{end_epoch}

-- A state that keeps the entry of the epoch has the same epoch.
pub epoch_same :
    (epoch : ℕ) (s t : State)
    → get_bytes key_current_epoch t ≡ get_bytes key_current_epoch s
    → current_epoch s ≡ (ok epoch, s)
    → current_epoch t ≡ (ok epoch, t)
unfolding current_epoch counter
epoch_same epoch s t h e = elim (Option-cases (get_bytes key_current_epoch s)) [
  | inl q ↦ ground (arith, h, e, q)
  | inr (bs, q) ↦ ground (arith, h, e, q)
]

epoch_set :
    (epoch : ℕ) (s t : State)
    → epoch < 2 ^ 64
    → set_current_epoch epoch s ≡ (ok tt, t)
    → current_epoch t ≡ (ok epoch, t)
unfolding current_epoch set_current_epoch counter uint64_of set_bytes get_bytes
epoch_set epoch s t h e = ground (
  arith,
  e,
  lookup-insert key_current_epoch key_current_epoch (put_be 8 epoch) s.kvstore,
  length-put_be 8 epoch,
  ap be_value (take-whole 8 (put_be 8 epoch) (length-put_be 8 epoch)),
  be_value-put_be 8 epoch h,
)

-- What is left of an action after its first step ends it.
ends :
    (m n : Action (Unit {0})) (s t : State)
    → (m >> n) s ≡ (ok tt, t)
    → (s' : State) × (n s' ≡ (ok tt, t))
ends m n s t h = let (_, s', _, e) = >>=-eq_ok m (λ _. n) s t tt h in (s', e)

-- The loops of the transition, and the write of the epoch.
abbrev rounds : ℕ → ℕ → Action (Unit {0})
rounds next count = do
  for_each_seq (activate_at next) count 1
  for_each_seq (release_at next) count 1
  for_each_seq (unjail_at next) count 1
  set_current_epoch next

rounds-set :
    (next count : ℕ) (s t : State)
    → next < 2 ^ 64
    → rounds next count s ≡ (ok tt, t)
    → current_epoch t ≡ (ok next, t)
rounds-set next count s t z h =
    let activated = for_each_seq (activate_at next) count 1 in
    let released = for_each_seq (release_at next) count 1 in
    let unjailed = for_each_seq (unjail_at next) count 1 in
    let last = set_current_epoch next in
    let (s1, h1) = ends activated (released >> (unjailed >> last)) s t h in
    let (s2, h2) = ends released (unjailed >> last) s1 t h1 in
    let (s3, h3) = ends unjailed last s2 t h2 in epoch_set next s3 t z h3

-- The transition, once the epoch before it is read.
abbrev go_on : ℕ → ℕ → Action (Unit {0})
go_on height next = do
  expected ← epoch_at_height height
  raise_if (not (expected == next)) epoch_mismatch
  count ← validator_count
  rounds next count

transition-next :
    (height now : ℕ) (s t : State)
    → process_epoch_transition height s ≡ (ok tt, t)
    → current_epoch s ≡ (ok now, s)
    → current_epoch t ≡ (ok (wrap64 (now + 1)), t)
unfolding process_epoch_transition
transition-next height now s t h e =
    let next = wrap64 (now + 1) in
    let h0 : go_on height next s ≡ (ok tt, t) = ground (arith, h, e) in
    let (expected, s1, _, h1) =
      >>=-eq_ok (epoch_at_height height)
        (λ expected.
          raise_if (not (expected == next)) epoch_mismatch >> (validator_count >>= rounds next))
        s t tt h0 in
    let (s2, h2) =
      ends (raise_if (not (expected == next)) epoch_mismatch) (validator_count >>= rounds next) s1 t
        h1 in
    let (count, s3, _, h3) = >>=-eq_ok validator_count (rounds next) s2 t tt h2 in
    rounds-set next count s3 t (omega arith) h3

supply : IsOther key_current_epoch
supply = record {
  total = ground arith;
  treasury = ground arith;
  issued = ground arith;
  issuance = λ n. ground arith;
  pool = λ n. ground arith;
}

Keeps-epoch_at_height : (height : ℕ) → Keeps key_current_epoch (epoch_at_height height)
unfolding epoch_at_height blocks_per_epoch
Keeps-epoch_at_height height =
    Keeps-if key_current_epoch (height == 0) (pure 0) _ (Keeps-pure key_current_epoch 0) (
      Keeps-bind key_current_epoch (counter key_blocks_per_epoch 100) _
        (Keeps-counter key_current_epoch key_blocks_per_epoch 100)
        (λ bpe. Keeps-pure key_current_epoch (epoch_of bpe height)))

-- The end of an epoch that succeeds leaves the epoch after the one before.
pub end_epoch-next :
    (height now : ℕ) (s t : State)
    → end_epoch height s ≡ (ok tt, t)
    → current_epoch s ≡ (ok now, s)
    → current_epoch t ≡ (ok (wrap64 (now + 1)), t)
unfolding end_epoch blocks_per_epoch
end_epoch-next height now s t h e =
    let k = key_current_epoch in
    let last = process_epoch_transition height in
    let paid = λ (n : ℕ). distribute_validator_rewards n >> last in
    let issued = λ (n bpe : ℕ). issue_epoch_tokens n 1 bpe >>= λ _. paid n in
    let (n, s0, e0, h0) =
      >>=-eq_ok (epoch_at_height height) (λ n. counter key_blocks_per_epoch 100 >>= issued n) s t tt
        h in
    let (bpe, s1, e1, h1) = >>=-eq_ok (counter key_blocks_per_epoch 100) (issued n) s0 t tt h0 in
    let (i, s2, e2, h2) = >>=-eq_ok (issue_epoch_tokens n 1 bpe) (λ _. paid n) s1 t tt h1 in
    let (_, s3, e3, h3) = >>=-eq_ok (distribute_validator_rewards n) (λ _. last) s2 t tt h2 in
    let kept : get_bytes k s3 ≡ get_bytes k s =
      Keeps-distribute_validator_rewards k n s2 s3 tt e3
      ∙ Keeps-issue_epoch_tokens k n 1 bpe supply s1 s2 i e2
      ∙ Keeps-counter k key_blocks_per_epoch 100 s0 s1 bpe e1
      ∙ Keeps-epoch_at_height height s s0 n e0 in
    transition-next height now s3 t h3 (epoch_same now s s3 kept e)
