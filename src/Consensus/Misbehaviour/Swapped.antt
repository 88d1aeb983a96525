-- ===== src/Consensus/Misbehaviour/Swapped.antt =====
-- consensus/slashing.go, types/evidence.go: the mark of a double signature depends on the order of
-- its two votes.
use dsn.Prelude.{ℕ, ◌≡◌, ◌≢◌, ◌∙◌, sym, ap, false, arith, inl, inr, Bool-cases, if◌then◌else◌}
use dsn.Error.{ok, err, duplicate_evidence, Result-cases}
use dsn.Exec.{lift}
use dsn.Bytes.{Bytes, put_be}
use dsn.Types.Vote.{Vote, Crypto, IsSizedVote, validate_vote}
use dsn.Types.Evidence.{Evidence, double_sign, validate_evidence, evidence_hash, hashed_bytes}
use dsn.Types.Evidence.RoundTrip.{hashed_bytes-swap}
use dsn.State.Key.{Key, key_eq, evidence_key}
use dsn.State.Memory.{State, get_bytes}
use dsn.State.Keeps.{Keeps, Keeps-pure, Keeps-lift, Keeps-bind, Keeps-set_bytes}
use dsn.Staking.Validator.{Validator}
use dsn.Staking.Registry.{get_validator}
use dsn.Staking.Slashing.Keeps.{IsApart, Keeps-get_validator, Keeps-slash_validator}
use dsn.Staking.Slashing.Offense.{slash_validator}
use dsn.Consensus.Misbehaviour.{
  is_evidence_processed, mark_evidence_processed, first_vote, slash_and_mark, punish,
  process_evidence,
}

module _ (k : Key) (apart : IsApart k) where
  Keeps-slash_and_mark :
      (ev : Evidence) (hash height : ℕ) (val : Validator)
      → key_eq.beq (evidence_key hash) k ≡ false
      → Keeps k (slash_and_mark ev hash height val)
  unfolding slash_and_mark mark_evidence_processed
  Keeps-slash_and_mark ev hash height val h =
      Keeps-bind k (slash_validator val.consensus_id ev) _
        (Keeps-slash_validator k val.consensus_id ev apart)
        (λ _.
          Keeps-bind k (mark_evidence_processed hash height) _
            (Keeps-set_bytes k (evidence_key hash) (put_be 8 height) h)
            (λ _. Keeps-pure k val.consensus_id))

  Keeps-punish :
      (ev : Evidence) (hash height : ℕ)
      → key_eq.beq (evidence_key hash) k ≡ false
      → Keeps k (punish ev hash height)
  unfolding punish
  Keeps-punish ev hash height h =
      Keeps-bind k (lift (first_vote ev)) _ (Keeps-lift k (first_vote ev)) (λ vote.
        Keeps-bind k (get_validator vote.validator) (slash_and_mark ev hash height)
          (Keeps-get_validator k vote.validator) (λ val. Keeps-slash_and_mark ev hash height val h))

process_evidence-inv :
    (c : Crypto) (ev : Evidence) (height id hash : ℕ) (s t : State)
    → process_evidence c ev height s ≡ (ok id, t)
    → evidence_hash c ev ≡ ok hash
    → (validate_evidence ev ≡ ok tt) × (punish ev hash height s ≡ (ok id, t))
unfolding process_evidence
process_evidence-inv c ev height id hash s t h e = elim (Result-cases (validate_evidence ev)) [
  | inr (x, q) ↦ ground (arith, h, q)
  | inl (u, q) ↦ elim (Bool-cases (is_evidence_processed hash s)) [
    | inl p ↦ ground (arith, h, e, q, p)
    | inr p ↦ (q, ground (arith, h, e, q, p))
  ]
]

validate_evidence-swap :
    (a b : Vote)
    → validate_evidence (double_sign a b) ≡ ok tt
    → validate_evidence (double_sign b a) ≡ ok tt
unfolding validate_evidence
validate_evidence-swap a b h = elim (Result-cases (validate_vote a)) [
  | inr (x, q) ↦ ground (arith, h, q)
  | inl (u, q) ↦ elim (Result-cases (validate_vote b)) [
    | inr (x, r) ↦ ground (arith, h, q, r)
    | inl (v, r) ↦ ground (arith, h, q, r)
  ]
]

hash-swap :
    (c : Crypto) (a b : Vote) (hash hash' : ℕ)
    → IsSizedVote a
    → IsSizedVote b
    → validate_evidence (double_sign a b) ≡ ok tt
    → ((xs ys : Bytes)
        → hashed_bytes (double_sign a b) ≡ ok xs
        → hashed_bytes (double_sign b a) ≡ ok ys
        → c.sha256 xs ≡ c.sha256 ys
        → xs ≡ ys)
    → evidence_hash c (double_sign a b) ≡ ok hash
    → evidence_hash c (double_sign b a) ≡ ok hash'
    → hash ≢ hash'
unfolding evidence_hash
hash-swap c a b hash hash' za zb valid apart e e' q =
    elim (Result-cases (hashed_bytes (double_sign a b))) [
      | inr (x, r) ↦ ground (arith, e, r)
      | inl (xs, r) ↦ elim (Result-cases (hashed_bytes (double_sign b a))) [
        | inr (x, r') ↦ ground (arith, e', r')
        | inl (ys, r') ↦
            let same : xs ≡ ys = apart xs ys r r' (ground (arith, e, e', r, r', q)) in
            hashed_bytes-swap a b xs za zb valid r (r' ∙ ap ok (sym same))
      ]
    ]

unmarked :
    (hash : ℕ) (s t : State)
    → get_bytes (evidence_key hash) t ≡ get_bytes (evidence_key hash) s
    → is_evidence_processed hash t ≡ is_evidence_processed hash s
unfolding is_evidence_processed
unmarked hash s t h = ground (arith, h)

-- Let a double signature be processed, with votes whose fields fit their types, and let the digest
-- not take the bytes that are hashed for it and those for the same votes in the other order to one
-- value. Then the swapped evidence is valid as well, its hash is another one, and the mark of that
-- hash is as it was before. At every height the swapped evidence is then refused as a duplicate
-- only where its own mark had been set before; where it had not, it goes on to the punishment of
-- the validator of its first vote.
pub process_evidence-swap :
    (c : Crypto) (a b : Vote) (height height' id hash hash' : ℕ) (s t : State)
    → IsSizedVote a
    → IsSizedVote b
    → ((xs ys : Bytes)
        → hashed_bytes (double_sign a b) ≡ ok xs
        → hashed_bytes (double_sign b a) ≡ ok ys
        → c.sha256 xs ≡ c.sha256 ys
        → xs ≡ ys)
    → process_evidence c (double_sign a b) height s ≡ (ok id, t)
    → evidence_hash c (double_sign a b) ≡ ok hash
    → evidence_hash c (double_sign b a) ≡ ok hash'
    → (validate_evidence (double_sign b a) ≡ ok tt)
      × (hash ≢ hash')
      × (is_evidence_processed hash' t ≡ is_evidence_processed hash' s)
      × (process_evidence c (double_sign b a) height' t ≡ (
          if is_evidence_processed hash' s
          then (err duplicate_evidence, t)
          else punish (double_sign b a) hash' height' t))
unfolding process_evidence
process_evidence-swap c a b height height' id hash hash' s t za zb apart h e e' =
    let (valid, punished) = process_evidence-inv c (double_sign a b) height id hash s t h e in
    let valid' = validate_evidence-swap a b valid in
    let other : hash ≢ hash' = hash-swap c a b hash hash' za zb valid apart e e' in
    let free : key_eq.beq (evidence_key hash) (evidence_key hash') ≡ false =
      ground (arith, other) in
    let kept : is_evidence_processed hash' t ≡ is_evidence_processed hash' s = unmarked hash' s t (
      Keeps-punish (evidence_key hash')
        (record { total = ground arith; validator = λ v. ground arith }) (double_sign a b) hash
        height free s t id punished) in
    (
      valid',
      other,
      kept,
      elim (Bool-cases (is_evidence_processed hash' s)) [
        | inl q ↦ ground (arith, valid', e', kept, q)
        | inr q ↦ ground (arith, valid', e', kept, q)
      ],
    )
