-- ===== src/Types/Vote.antt =====
-- types/vote.go and types/proposal.go: votes and proposals on a block, their signed content and
-- their binary forms. SHA-256 and Ed25519 are parameters.
use dsn.Prelude.{ℕ, ◌^◌, ◌<◌, ◌≤◌, ◌≡◌, [], ◌∷◌, ◌++◌, Bool, length, ◌==◌, ltb, not, ◌&&◌, arith}
use dsn.Error.{
  Result, ok, invalid_vote_type, empty_signature, signature_too_long, fail_if, ◌>>◌ as and_then,
}
use dsn.Bytes.{Bytes, Reader, put_be, read_uint, write_uint, writes}
use dsn.Bytes.Do.{◌>>=◌, pure, Inverts, Inverts-cons, Inverts-nil}
use dsn.Bytes.RoundTrip.{Inverts-uint}
use dsn.Types.Signature.{write_signature, read_signature, Inverts-signature}

abbrev pub prevote : ℕ
prevote = 1

abbrev pub precommit : ℕ
precommit = 2

pub record Vote : Type 0 where
  pub vote_type : ℕ
  pub height : ℕ
  pub round : ℕ
  pub block_hash : ℕ
  pub validator : ℕ
  pub signature : Bytes

-- What crypto/sha256 and crypto/ed25519 give: a digest as a number below 2 ^ 256, and the check of
-- a signature by a key on a message.
pub record Crypto : Type 0 where
  pub sha256 : Bytes → ℕ
  pub verify : ℕ → ℕ → Bytes → Bool

-- The bytes that VoteHash hashes.
unfoldable pub vote_content : Vote → Bytes
vote_content v =
    put_be 1 v.vote_type
    ++ (put_be 8 v.height
        ++ (put_be 4 v.round ++ (put_be 32 v.block_hash ++ put_be 20 v.validator)))

unfoldable pub verify_vote : Crypto → Vote → ℕ → Bool
unfolding vote_content
verify_vote c v pub_key = c.verify pub_key (c.sha256 (vote_content v)) v.signature

-- Sign. What Ed25519 signs a digest with under the private key is an argument.
unfoldable pub sign_vote : Crypto → (ℕ → Bytes) → Vote → Vote
unfolding vote_content
sign_vote c sign v = record v { signature = sign (c.sha256 (vote_content v)) }

-- Validate: it does not verify the signature.
unfoldable pub validate_vote : Vote → Result (Unit {0})
validate_vote v =
    and_then
      (fail_if (not (v.vote_type == prevote) && not (v.vote_type == precommit)) invalid_vote_type)
      (and_then (fail_if (length v.signature == 0) empty_signature)
        (fail_if (ltb 512 (length v.signature)) signature_too_long))

unfoldable pub encode_vote : Vote → Result Bytes
encode_vote v = writes (
    write_uint 1 v.vote_type
    ∷ write_uint 8 v.height
    ∷ write_uint 4 v.round
    ∷ write_uint 32 v.block_hash
    ∷ write_uint 20 v.validator
    ∷ write_signature v.signature
    ∷ [])

unfoldable pub decode_vote : Reader Vote
decode_vote = do
  vote_type ← read_uint 1
  height ← read_uint 8
  round ← read_uint 4
  block_hash ← read_uint 32
  validator ← read_uint 20
  signature ← read_signature
  pure (record {
    vote_type = vote_type;
    height = height;
    round = round;
    block_hash = block_hash;
    validator = validator;
    signature = signature;
  })

-- The fields fit their Go types, and the signature the reader's limit.
pub record IsSizedVote (v : Vote) : Type 0 where
  pub vote_type : v.vote_type < 2 ^ 8
  pub height : v.height < 2 ^ 64
  pub round : v.round < 2 ^ 32
  pub block_hash : v.block_hash < 2 ^ 256
  pub validator : v.validator < 2 ^ 160
  pub signature : length v.signature ≤ 1024

pub Inverts-vote : (v : Vote) → IsSizedVote v → Inverts (encode_vote v) decode_vote v
unfolding encode_vote decode_vote
Inverts-vote v z = Inverts-cons _ _ (Inverts-uint 1 v.vote_type z.vote_type) (
    Inverts-cons _ _ (Inverts-uint 8 v.height z.height) (
      Inverts-cons _ _ (Inverts-uint 4 v.round z.round) (
        Inverts-cons _ _ (Inverts-uint 32 v.block_hash z.block_hash) (
          Inverts-cons _ _ (Inverts-uint 20 v.validator z.validator)
            (Inverts-cons _ _ (Inverts-signature v.signature z.signature) (Inverts-nil v))))))

-- A vote that Validate accepts has a signature that the reader accepts.
pub length-validate_vote : (v : Vote) → validate_vote v ≡ ok tt → length v.signature ≤ 512
unfolding validate_vote
length-validate_vote v h = ground arith

pub record Proposal : Type 0 where
  pub height : ℕ
  pub round : ℕ
  pub block_hash : ℕ
  pub proposer : ℕ
  pub signature : Bytes

-- The bytes that ProposalHash hashes.
unfoldable pub proposal_content : Proposal → Bytes
proposal_content p =
    put_be 8 p.height ++ (put_be 4 p.round ++ (put_be 32 p.block_hash ++ put_be 20 p.proposer))

unfoldable pub sign_proposal : Crypto → (ℕ → Bytes) → Proposal → Proposal
unfolding proposal_content
sign_proposal c sign p = record p { signature = sign (c.sha256 (proposal_content p)) }

unfoldable pub verify_proposal : Crypto → Proposal → ℕ → Bool
unfolding proposal_content
verify_proposal c p pub_key = c.verify pub_key (c.sha256 (proposal_content p)) p.signature

unfoldable pub encode_proposal : Proposal → Result Bytes
encode_proposal p = writes (
    write_uint 8 p.height
    ∷ write_uint 4 p.round
    ∷ write_uint 32 p.block_hash
    ∷ write_uint 20 p.proposer
    ∷ write_signature p.signature
    ∷ [])

unfoldable pub decode_proposal : Reader Proposal
decode_proposal = do
  height ← read_uint 8
  round ← read_uint 4
  block_hash ← read_uint 32
  proposer ← read_uint 20
  signature ← read_signature
  pure (record {
    height = height;
    round = round;
    block_hash = block_hash;
    proposer = proposer;
    signature = signature;
  })

unfoldable pub validate_proposal : Proposal → Result (Unit {0})
validate_proposal p =
    and_then (fail_if (length p.signature == 0) empty_signature)
      (fail_if (ltb 512 (length p.signature)) signature_too_long)

-- A proposal that Validate accepts and whose fields fit their types is decoded from its encoding
-- where that succeeds, whatever follows.
decode_proposal-encode_proposal :
    (p : Proposal) (bs rest : Bytes)
    → p.height < 2 ^ 64
    → p.round < 2 ^ 32
    → p.block_hash < 2 ^ 256
    → p.proposer < 2 ^ 160
    → validate_proposal p ≡ ok tt
    → encode_proposal p ≡ ok bs
    → decode_proposal (bs ++ rest) ≡ ok (p, rest)
unfolding encode_proposal decode_proposal validate_proposal
decode_proposal-encode_proposal p bs rest hh hr hb hp valid =
    let fits : length p.signature ≤ 1024 = ground arith in
    (Inverts-cons _ _ (Inverts-uint 8 p.height hh) (
        Inverts-cons _ _ (Inverts-uint 4 p.round hr) (
          Inverts-cons _ _ (Inverts-uint 32 p.block_hash hb) (
            Inverts-cons _ _ (Inverts-uint 20 p.proposer hp)
              (Inverts-cons _ _ (Inverts-signature p.signature fits) (Inverts-nil p)))))).at
      bs rest
