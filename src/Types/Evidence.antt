-- ===== src/Types/Evidence.antt =====
-- types/evidence.go: evidence of misbehaviour, its validation, its binary form and its hash. A
-- reason is the bytes of its string.
pub mod RoundTrip
use dsn.Prelude.{
  ℕ, zero, suc, ◌+◌, ◌%◌, ◌^◌, ◌<◌, ◌≤◌, ◌≡◌, ◌≢◌, ◌∙◌, ap, sym, List, [], ◌∷◌, ◌++◌, map, Bool,
  length, ◌==◌, not, ◌&&◌, arith, All, if◌then◌else◌, ==_iff,
}
use dsn.Error.{
  Result, ok, err, fail_if, evidence_type_mismatch, evidence_validator_mismatch,
  evidence_height_mismatch, evidence_round_mismatch, evidence_same_block, evidence_zero_height,
  empty_reason, invalid_vote_type, invalid_evidence_type, ◌>>=◌ as bind, ◌>>◌ as and_then,
}
use mathlib.Core.Path.{subst}
use dsn.Bytes.{Bytes, Reader, read_uint, write_uint, writes}
use dsn.Bytes.Do.{◌>>=◌, pure, fail, Inverts, Inverts-cons, Inverts-map, Inverts-nil}
use dsn.Bytes.RoundTrip.{Inverts-uint}
use dsn.Types.Signature.{write_signature, read_signature, Inverts-signature}
use dsn.Types.Vote.{
  Vote, Crypto, IsSizedVote, prevote, precommit, validate_vote, encode_vote, decode_vote,
  Inverts-vote,
}
use dsn.Types.Commit.{
  CommitProof, IsSizedProof, encode_proof, decode_proof, decode_proof-encode_proof,
}

pub data Evidence : Type 0 where
  double_sign : Vote → Vote → Evidence
  invalid_commit : CommitProof → Bytes → Evidence
  malformed_vote : Vote → Bytes → Evidence

unfoldable pub evidence_type : Evidence → ℕ
evidence_type (double_sign a b) = 1
evidence_type (invalid_commit proof reason) = 2
evidence_type (malformed_vote vote reason) = 3

unfoldable pub evidence_height : Evidence → ℕ
evidence_height (double_sign a b) = a.height
evidence_height (invalid_commit proof reason) = proof.height
evidence_height (malformed_vote vote reason) = vote.height

-- Validate of each kind: no signature is verified.
abbrev pub validate_double_sign : Vote → Vote → Result (Unit {0})
validate_double_sign a b =
    and_then (fail_if (not (a.vote_type == b.vote_type)) evidence_type_mismatch) (
      and_then (fail_if (not (a.validator == b.validator)) evidence_validator_mismatch) (
        and_then (fail_if (not (a.height == b.height)) evidence_height_mismatch) (
          and_then (fail_if (not (a.round == b.round)) evidence_round_mismatch) (
            and_then (fail_if (a.block_hash == b.block_hash) evidence_same_block)
              (and_then (validate_vote a) (validate_vote b))))))

-- The result of the proof's own Validate is dropped.
abbrev pub validate_invalid_commit : Bytes → Result (Unit {0})
validate_invalid_commit reason = fail_if (length reason == 0) empty_reason

abbrev pub validate_malformed_vote : Vote → Bytes → Result (Unit {0})
validate_malformed_vote vote reason =
    and_then
      (fail_if (not (vote.vote_type == prevote) && not (vote.vote_type == precommit))
        invalid_vote_type)
      (and_then (fail_if (vote.height == 0) evidence_zero_height)
        (fail_if (length reason == 0) empty_reason))

unfoldable pub validate_evidence : Evidence → Result (Unit {0})
unfolding validate_vote
validate_evidence (double_sign a b) = validate_double_sign a b
validate_evidence (invalid_commit proof reason) = validate_invalid_commit reason
validate_evidence (malformed_vote vote reason) = validate_malformed_vote vote reason

-- Encode of each kind. A reason is written and read as a vote's signature is, with the same limit.
abbrev pub encode_double_sign : Vote → Vote → Result Bytes
encode_double_sign a b = writes (write_uint 1 a.vote_type ∷ encode_vote a ∷ encode_vote b ∷ [])

abbrev pub encode_invalid_commit : CommitProof → Bytes → Result Bytes
encode_invalid_commit proof reason = writes (encode_proof proof ∷ write_signature reason ∷ [])

abbrev pub encode_malformed_vote : Vote → Bytes → Result Bytes
encode_malformed_vote vote reason =
    writes (write_uint 1 vote.vote_type ∷ encode_vote vote ∷ write_signature reason ∷ [])

unfoldable pub encode_evidence_body : Evidence → Result Bytes
unfolding encode_vote encode_proof
encode_evidence_body (double_sign a b) = encode_double_sign a b
encode_evidence_body (invalid_commit proof reason) = encode_invalid_commit proof reason
encode_evidence_body (malformed_vote vote reason) = encode_malformed_vote vote reason

unfoldable pub decode_double_sign : Reader Evidence
decode_double_sign = do _ ← read_uint 1; a ← decode_vote; b ← decode_vote; pure (double_sign a b)

unfoldable pub decode_invalid_commit : Reader Evidence
decode_invalid_commit = do
  proof ← decode_proof
  reason ← read_signature
  pure (invalid_commit proof reason)

-- The vote's own type overwrites the one that is read first.
unfoldable pub decode_malformed_vote : Reader Evidence
decode_malformed_vote = do
  _ ← read_uint 1
  vote ← decode_vote
  reason ← read_signature
  pure (malformed_vote vote reason)

-- The bytes that EvidenceHash of each kind hashes: a reason is left out.
abbrev pub double_sign_bytes : Vote → Vote → Result Bytes
double_sign_bytes a b = encode_double_sign a b

abbrev pub invalid_commit_bytes : CommitProof → Result Bytes
invalid_commit_bytes proof = encode_proof proof

abbrev pub malformed_vote_bytes : Vote → Result Bytes
malformed_vote_bytes vote = writes (write_uint 1 vote.vote_type ∷ encode_vote vote ∷ [])

unfoldable pub hashed_bytes : Evidence → Result Bytes
unfolding encode_evidence_body
hashed_bytes (double_sign a b) = double_sign_bytes a b
hashed_bytes (invalid_commit proof reason) = invalid_commit_bytes proof
hashed_bytes (malformed_vote vote reason) = malformed_vote_bytes vote

unfoldable pub evidence_hash : Crypto → Evidence → Result ℕ
unfolding hashed_bytes
evidence_hash c ev = bind (hashed_bytes ev) (λ bs. ok (c.sha256 bs))

unfoldable pub encode_evidence : Evidence → Result Bytes
unfolding evidence_type encode_evidence_body
encode_evidence ev = writes (write_uint 1 (evidence_type ev) ∷ encode_evidence_body ev ∷ [])

unfoldable pub decode_evidence_of : ℕ → Reader Evidence
unfolding decode_double_sign decode_invalid_commit decode_malformed_vote fail
decode_evidence_of t =
    if t == 1
    then decode_double_sign
    else if t == 2
    then decode_invalid_commit
    else if t == 3
    then decode_malformed_vote
    else fail invalid_evidence_type

unfoldable pub decode_evidence : Reader Evidence
unfolding decode_evidence_of
decode_evidence = do t ← read_uint 1; decode_evidence_of t

unfoldable pub encode_evidence_list : List Evidence → Result Bytes
unfolding encode_evidence
encode_evidence_list evs =
    writes (write_uint 4 (length evs % 2 ^ 32) ∷ writes (map encode_evidence evs) ∷ [])

unfoldable pub decode_evidences : ℕ → Reader (List Evidence)
decode_evidences zero = pure []
decode_evidences (suc count) = do
  ev ← decode_evidence
  evs ← decode_evidences count
  pure (ev ∷ evs)

unfoldable pub decode_evidence_list : Reader (List Evidence)
unfolding decode_evidences
decode_evidence_list = do count ← read_uint 4; decode_evidences count
