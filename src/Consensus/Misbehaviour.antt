-- ===== src/Consensus/Misbehaviour.antt =====
-- consensus/slashing.go: the evidence of a block, and the marks that keep one piece of evidence
-- from being used twice.
pub mod Swapped
use dsn.Prelude.{
  ℕ, ◌≡◌, ap, List, [], ◌∷◌, none, some, Bool, true, false, arith, inl, inr, Bool-cases,
}
use dsn.Prelude.Map.{lookup, insert, lookup-insert}
use dsn.Error.{Result, ok, err, duplicate_evidence, unsupported_evidence, Result-cases}
use dsn.Exec.{◌>>=◌, ◌>>◌, pure, lift, gets, raise_if, >>=-eq_ok}
use dsn.Bytes.{put_be}
use dsn.Types.Vote.{Vote, Crypto}
use dsn.Types.Evidence.{
  Evidence, double_sign, invalid_commit, malformed_vote, validate_evidence, evidence_hash,
}
use dsn.State.Key.{key_eq, evidence_key}
use dsn.State.Memory.{State, Action, get_bytes, set_bytes}
use dsn.Staking.Validator.{Validator}
use dsn.Staking.Registry.{get_validator}
use dsn.Staking.Slashing.Offense.{slash_validator}

unfoldable pub is_evidence_processed : ℕ → State → Bool
unfolding get_bytes
is_evidence_processed hash s = elim (get_bytes (evidence_key hash) s) [
  | none ↦ false
  | some _ ↦ true
]

unfoldable pub mark_evidence_processed : ℕ → ℕ → Action (Unit {0})
unfolding set_bytes
mark_evidence_processed hash height = set_bytes (evidence_key hash) (put_be 8 height)

-- Only a double signature is supported: its first vote.
unfoldable pub first_vote : Evidence → Result Vote
first_vote (double_sign a b) = ok a
first_vote (invalid_commit proof reason) = err unsupported_evidence
first_vote (malformed_vote vote reason) = err unsupported_evidence

-- What follows once the validator is found.
unfoldable pub slash_and_mark : Evidence → ℕ → ℕ → Validator → Action ℕ
unfolding slash_validator mark_evidence_processed
slash_and_mark ev hash height val = do
  slash_validator val.consensus_id ev
  mark_evidence_processed hash height
  pure val.consensus_id

-- What follows once the evidence is found valid and new.
unfoldable pub punish : Evidence → ℕ → ℕ → Action ℕ
unfolding first_vote get_validator slash_and_mark
punish ev hash height = do
  vote ← lift (first_vote ev)
  val ← get_validator vote.validator
  slash_and_mark ev hash height val

unfoldable pub process_evidence : Crypto → Evidence → ℕ → Action ℕ
unfolding validate_evidence evidence_hash is_evidence_processed punish
process_evidence c ev height = do
  lift (validate_evidence ev)
  hash ← lift (evidence_hash c ev)
  processed ← gets (is_evidence_processed hash)
  raise_if processed duplicate_evidence
  punish ev hash height

-- ProcessBlockEvidence, and the loop of ValidateBlock: the first error ends it.
unfoldable pub process_block_evidence : Crypto → List Evidence → ℕ → Action (Unit {0})
process_block_evidence c [] height = pure tt
process_block_evidence c (ev ∷ evs) height = do
  _ ← process_evidence c ev height
  process_block_evidence c evs height

marked :
    (ev : Evidence) (hash height id : ℕ) (val : Validator) (s t : State)
    → slash_and_mark ev hash height val s ≡ (ok id, t)
    → is_evidence_processed hash t ≡ true
unfolding slash_and_mark mark_evidence_processed set_bytes is_evidence_processed get_bytes
marked ev hash height id val s t h = elim (Result-cases (slash_validator val.consensus_id ev s).0) [
  | inr (x, e) ↦ ground (arith, h, e)
  | inl (u, e) ↦
      let s' = (slash_validator val.consensus_id ev s).1 in
      let kv : t.kvstore ≡ insert (evidence_key hash) (put_be 8 height) s'.kvstore =
        ground (arith, h, e) in
      ground (
        arith,
        ap (lookup (evidence_key hash)) kv,
        lookup-insert (evidence_key hash) (evidence_key hash) (put_be 8 height) s'.kvstore,
      )
]

punish-marks :
    (ev : Evidence) (hash height id : ℕ) (s t : State)
    → punish ev hash height s ≡ (ok id, t)
    → is_evidence_processed hash t ≡ true
unfolding punish
punish-marks ev hash height id s t h = elim (Result-cases (first_vote ev)) [
  | inr (x, e) ↦ ground (arith, h, e)
  | inl (vote, e) ↦
      let (val, s', _, h') =
        >>=-eq_ok (get_validator vote.validator) (slash_and_mark ev hash height) s t id
          (ground (arith, h, e)) in
      marked ev hash height id val s' t h'
]

-- Evidence is processed only where it is valid and its hash was not marked before, and marks it:
-- from then on, in every state that keeps the mark, the same evidence is refused as a duplicate,
-- at whatever height, and the refusal changes nothing.
pub process_evidence-once :
    (c : Crypto) (ev : Evidence) (height height' id : ℕ) (s t : State)
    → process_evidence c ev height s ≡ (ok id, t)
    → (hash : ℕ) × (validate_evidence ev ≡ ok tt)
      × (evidence_hash c ev ≡ ok hash)
      × (is_evidence_processed hash s ≡ false)
      × (is_evidence_processed hash t ≡ true)
      × ((u : State)
          → is_evidence_processed hash u ≡ true
          → process_evidence c ev height' u ≡ (err duplicate_evidence, u))
unfolding process_evidence
process_evidence-once c ev height height' id s t h = elim (Result-cases (validate_evidence ev)) [
  | inr (x, e) ↦ ground (arith, h, e)
  | inl (u, e) ↦ elim (Result-cases (evidence_hash c ev)) [
    | inr (x, e') ↦ ground (arith, h, e, e')
    | inl (hash, e') ↦ elim (Bool-cases (is_evidence_processed hash s)) [
      | inl q ↦ ground (arith, h, e, e', q)
      | inr q ↦
          let p : punish ev hash height s ≡ (ok id, t) = ground (arith, h, e, e', q) in
          (hash, e, e', q, punish-marks ev hash height id s t p, λ u q'. ground (arith, e, e', q'))
    ]
  ]
]
