-- ===== src/Types/Evidence/RoundTrip.antt =====
-- A list of evidence is decoded from its encoding.
use dsn.Prelude.{
  ℕ, ◌%◌, ◌^◌, ◌<◌, ◌≤◌, ◌≡◌, ◌≢◌, ap, List, [], ◌∷◌, ◌++◌, map, length, arith, All, ==_iff,
}
use dsn.Error.{Result, ok}
use mathlib.Core.Path.{subst}
use dsn.Bytes.{Bytes, Reader, read_uint, write_uint, writes}
use dsn.Bytes.Do.{◌>>=◌, Inverts-last, Inverts, Inverts-cons, Inverts-map, Inverts-nil}
use dsn.Bytes.RoundTrip.{Inverts-uint}
use dsn.Types.Signature.{Inverts-signature}
use dsn.Types.Vote.{Vote, IsSizedVote, Inverts-vote}
use dsn.Types.Commit.{IsSizedProof, decode_proof-encode_proof}
use dsn.Types.Evidence.{
  Evidence, double_sign, invalid_commit, malformed_vote, evidence_type, validate_evidence,
  encode_evidence_body, decode_double_sign, decode_invalid_commit, decode_malformed_vote,
  encode_evidence, decode_evidence_of, decode_evidence, encode_evidence_list, decode_evidences,
  decode_evidence_list, hashed_bytes,
}

-- The fields fit their Go types, and a reason the reader's limit.
abbrev pub IsSizedEvidence : Evidence → Type 0
IsSizedEvidence (double_sign a b) = IsSizedVote a × IsSizedVote b
IsSizedEvidence (invalid_commit proof reason) = IsSizedProof proof × (length reason ≤ 1024)
IsSizedEvidence (malformed_vote vote reason) = IsSizedVote vote × (length reason ≤ 1024)

-- An integer that is read and not used.
Inverts-unused {ℓ} :
    {A : Type ℓ} (n v : ℕ) (ws : List (Result Bytes)) (r : Reader A) (a : A)
    → v < 256 ^ n
    → Inverts (writes ws) r a
    → Inverts (writes (write_uint n v ∷ ws)) (read_uint n >>= λ _. r) a
Inverts-unused n v ws r a h p = Inverts-cons ws (λ _. r) (Inverts-uint n v h) p

Inverts-double_sign :
    (a b : Vote)
    → IsSizedVote a
    → IsSizedVote b
    → Inverts (encode_evidence_body (double_sign a b)) decode_double_sign (double_sign a b)
unfolding encode_evidence_body decode_double_sign
Inverts-double_sign a b za zb = Inverts-cons _ _ (Inverts-uint 1 a.vote_type za.vote_type) (
    Inverts-cons _ _ (Inverts-vote a za)
      (Inverts-cons _ _ (Inverts-vote b zb) (Inverts-nil (double_sign a b))))

Inverts-body :
    (ev : Evidence)
    → IsSizedEvidence ev
    → Inverts (encode_evidence_body ev) (decode_evidence_of (evidence_type ev)) ev
unfolding decode_evidence_of evidence_type encode_evidence_body decode_invalid_commit
    decode_malformed_vote
Inverts-body (double_sign a b) (za, zb) = Inverts-double_sign a b za zb
Inverts-body (invalid_commit proof reason) (zp, zr) =
    Inverts-cons _ _ (record { at = λ bs rest. decode_proof-encode_proof proof bs rest zp })
      (Inverts-cons _ _ (Inverts-signature reason zr) (Inverts-nil (invalid_commit proof reason)))
Inverts-body (malformed_vote vote reason) (zv, zr) =
    Inverts-cons _ _ (Inverts-uint 1 vote.vote_type zv.vote_type) (
      Inverts-cons _ _ (Inverts-vote vote zv)
        (Inverts-cons _ _ (Inverts-signature reason zr) (Inverts-nil (malformed_vote vote reason))))

evidence_type-lt : (ev : Evidence) → evidence_type ev < 256 ^ 1
unfolding evidence_type
evidence_type-lt (double_sign a b) = omega arith
evidence_type-lt (invalid_commit proof reason) = omega arith
evidence_type-lt (malformed_vote vote reason) = omega arith

Inverts-evidence :
    (ev : Evidence) → IsSizedEvidence ev → Inverts (encode_evidence ev) decode_evidence ev
unfolding encode_evidence decode_evidence
Inverts-evidence ev z =
    Inverts-cons _ decode_evidence_of (Inverts-uint 1 (evidence_type ev) (evidence_type-lt ev))
      (Inverts-last (Inverts-body ev z))

Inverts-evidences :
    (evs : List Evidence)
    → All IsSizedEvidence evs
    → Inverts (writes (map encode_evidence evs)) (decode_evidences (length evs)) evs
unfolding decode_evidences
Inverts-evidences [] h = Inverts-nil []
Inverts-evidences (ev ∷ evs) (h, hs) =
    Inverts-cons _ _ (Inverts-evidence ev h)
      (Inverts-map (λ us. ev ∷ us) (Inverts-evidences evs hs))

-- Fewer than 2 ^ 32 pieces of evidence, of any of the three kinds, whose fields fit their types
-- and whose signatures and reasons have at most 1024 bytes, are decoded from their encoding where
-- that succeeds, whatever follows.
pub decode_evidence_list-encode_evidence_list :
    (evs : List Evidence) (bs rest : Bytes)
    → length evs < 2 ^ 32
    → All IsSizedEvidence evs
    → encode_evidence_list evs ≡ ok bs
    → decode_evidence_list (bs ++ rest) ≡ ok (evs, rest)
unfolding encode_evidence_list decode_evidence_list
decode_evidence_list-encode_evidence_list evs bs rest n z =
    (Inverts-cons _ decode_evidences (Inverts-uint 4 (length evs % 2 ^ 32) (omega arith)) (
        Inverts-last (
          subst (λ k. Inverts (writes (map encode_evidence evs)) (decode_evidences k) evs)
            (ground (arith, n)) (Inverts-evidences evs z)))).at
      bs rest

-- The bytes that are hashed for a double signature that Validate accepts are not those for the
-- same two votes in the other order, where both encodings succeed and the fields fit their types.
pub hashed_bytes-swap :
    (a b : Vote) (bs : Bytes)
    → IsSizedVote a
    → IsSizedVote b
    → validate_evidence (double_sign a b) ≡ ok tt
    → hashed_bytes (double_sign a b) ≡ ok bs
    → hashed_bytes (double_sign b a) ≢ ok bs
unfolding hashed_bytes validate_evidence
hashed_bytes-swap a b bs za zb valid h = λ h'.
    let one = (Inverts-double_sign a b za zb).at bs [] h in
    let two = (Inverts-double_sign b a zb za).at bs [] h' in
    let same : double_sign a b ≡ double_sign b a = cc in
    let blocks : a.block_hash ≡ b.block_hash = ap first_block same in
    ground (arith, valid, (==_iff a.block_hash b.block_hash).1 blocks)
  where
    first_block : Evidence → ℕ
    first_block (double_sign v w) = v.block_hash
    first_block (invalid_commit proof reason) = 0
    first_block (malformed_vote vote reason) = 0
