-- ===== src/Types/Commit.antt =====
-- types/commit.go: the proof that a block was committed.
use dsn.Prelude.{
  ℕ, zero, suc, ◌*◌, ◌^◌, ◌<◌, ◌≤◌, ◌≡◌, List, [], ◌∷◌, ◌++◌, Bool, false, map, length, ◌==◌, ltb,
  leb, if◌then◌else◌, arith, wrap64, not, All,
}
use dsn.Error.{
  Result, ok, invalid_encoding, empty_precommits, power_exceeds_total, insufficient_power, fail_if,
  ◌>>◌ as and_then,
}
use dsn.Bytes.{Bytes, Reader, put_be, read_uint, write_uint, writes}
use dsn.Bytes.Do.{◌>>=◌, pure, fail, Inverts, Inverts-cons, Inverts-map, Inverts-nil}
use mathlib.Core.Path.{subst}
use dsn.Bytes.RoundTrip.{Inverts-uint}
use dsn.Types.Vote.{Vote, Crypto, IsSizedVote, encode_vote, decode_vote, Inverts-vote}

pub record CommitProof : Type 0 where
  pub height : ℕ
  pub block_hash : ℕ
  pub precommits : List Vote
  pub total_power : ℕ
  pub signed_power : ℕ
  pub set_hash : ℕ

-- The products are computed in uint64.
unfoldable pub has_two_thirds_majority : CommitProof → Bool
has_two_thirds_majority c =
    if c.total_power == 0
    then false
    else leb (wrap64 (c.total_power * 2)) (wrap64 (c.signed_power * 3))

unfoldable pub validate_proof : CommitProof → Result (Unit {0})
unfolding has_two_thirds_majority
validate_proof c = and_then (fail_if (length c.precommits == 0) empty_precommits) (
    and_then (fail_if (ltb c.total_power c.signed_power) power_exceeds_total)
      (fail_if (not (has_two_thirds_majority c)) insufficient_power))

unfoldable pub encode_proof : CommitProof → Result Bytes
encode_proof c = writes (
    write_uint 8 c.height
    ∷ write_uint 32 c.block_hash
    ∷ write_uint 8 (wrap64 (length c.precommits))
    ∷ writes (map encode_vote c.precommits)
    ∷ write_uint 8 c.total_power
    ∷ write_uint 8 c.signed_power
    ∷ write_uint 32 c.set_hash
    ∷ [])

-- The loop that decodes `count` votes.
unfoldable pub decode_votes : ℕ → Reader (List Vote)
decode_votes zero = pure []
decode_votes (suc count) = do v ← decode_vote; vs ← decode_votes count; pure (v ∷ vs)

unfoldable pub decode_precommits : ℕ → Reader (List Vote)
unfolding decode_votes fail
decode_precommits count = if ltb 10000 count then fail invalid_encoding else decode_votes count

unfoldable pub decode_proof : Reader CommitProof
decode_proof = do
  height ← read_uint 8
  block_hash ← read_uint 32
  count ← read_uint 8
  precommits ← decode_precommits count
  total_power ← read_uint 8
  signed_power ← read_uint 8
  set_hash ← read_uint 32
  pure (record {
    height = height;
    block_hash = block_hash;
    precommits = precommits;
    total_power = total_power;
    signed_power = signed_power;
    set_hash = set_hash;
  })

-- The fields fit their Go types, and the votes the reader's limits.
pub record IsSizedProof (c : CommitProof) : Type 0 where
  pub height : c.height < 2 ^ 64
  pub block_hash : c.block_hash < 2 ^ 256
  pub precommits : All IsSizedVote c.precommits
  pub count : length c.precommits ≤ 10000
  pub total_power : c.total_power < 2 ^ 64
  pub signed_power : c.signed_power < 2 ^ 64
  pub set_hash : c.set_hash < 2 ^ 256

Inverts-votes :
    (vs : List Vote)
    → All IsSizedVote vs
    → Inverts (writes (map encode_vote vs)) (decode_votes (length vs)) vs
unfolding decode_votes
Inverts-votes [] h = Inverts-nil []
Inverts-votes (v ∷ vs) h =
    Inverts-cons _ _ (Inverts-vote v h.0) (Inverts-map (λ us. v ∷ us) (Inverts-votes vs h.1))

Inverts-precommits :
    (vs : List Vote)
    → length vs ≤ 10000
    → All IsSizedVote vs
    → Inverts (writes (map encode_vote vs)) (decode_precommits (wrap64 (length vs))) vs
unfolding decode_precommits
Inverts-precommits vs fits h =
    subst (λ (r : Reader (List Vote)). Inverts (writes (map encode_vote vs)) r vs) (ground arith)
      (Inverts-votes vs h)

-- A commit proof of at most 10000 votes, whose fields fit their types and whose signatures have
-- at most 1024 bytes, is decoded from its encoding where that succeeds, whatever follows.
pub decode_proof-encode_proof :
    (c : CommitProof) (bs rest : Bytes)
    → IsSizedProof c
    → encode_proof c ≡ ok bs
    → decode_proof (bs ++ rest) ≡ ok (c, rest)
unfolding encode_proof decode_proof
decode_proof-encode_proof c bs rest z =
    (Inverts-cons _ _ (Inverts-uint 8 c.height z.height) (
        Inverts-cons _ _ (Inverts-uint 32 c.block_hash z.block_hash) (
          Inverts-cons _ _ (Inverts-uint 8 (wrap64 (length c.precommits)) (omega arith)) (
            Inverts-cons _ _ (Inverts-precommits c.precommits z.count z.precommits) (
              Inverts-cons _ _ (Inverts-uint 8 c.total_power z.total_power) (
                Inverts-cons _ _ (Inverts-uint 8 c.signed_power z.signed_power) (
                  Inverts-cons _ _ (Inverts-uint 32 c.set_hash z.set_hash) (Inverts-nil c)))))))).at
      bs rest

-- CommitProofHash: the votes are not hashed.
unfoldable pub commit_proof_hash : Crypto → CommitProof → ℕ
commit_proof_hash c p = c.sha256 (
    put_be 8 p.height
    ++ (put_be 32 p.block_hash
        ++ (put_be 8 p.total_power ++ (put_be 8 p.signed_power ++ put_be 32 p.set_hash))))
