-- ===== src/Tests/Evidences.antt =====
-- A double signature: its encoding, its two hashes and its punishment.
use dsn.Prelude.{
  ℕ, ◌+◌, ◌*◌, ◌∙◌, sym, if◌then◌else◌, ◌≡◌, ◌≢◌, ◌<◌, ◌^◌, ◌++◌, refl, [], ◌∷◌, true, false, foldl,
  arith,
}
use dsn.Error.{Result, ok, err, duplicate_evidence}
use dsn.Bytes.{Bytes}
use dsn.Types.Vote.{Vote, Crypto, IsSizedVote}
use dsn.Types.Evidence.{
  Evidence, double_sign, malformed_vote, validate_evidence, evidence_hash, hashed_bytes,
  encode_evidence_list, decode_evidence_list,
}
use dsn.Types.Evidence.RoundTrip.{decode_evidence_list-encode_evidence_list}
use dsn.State.Memory.{State}
use dsn.Consensus.Misbehaviour.{
  process_evidence, is_evidence_processed, punish, process_evidence-once,
}
use dsn.Consensus.Misbehaviour.Swapped.{process_evidence-swap}
use dsn.Tests.Validators.{staked, bytes_of}

abbrev vote_for : ℕ → Vote
vote_for block = record {
  vote_type = 2;
  height = 5;
  round = 0;
  block_hash = block;
  validator = 21;
  signature = 4 ∷ [];
}

vote_for-IsSizedVote : (block : ℕ) → block < 2 ^ 256 → IsSizedVote (vote_for block)
vote_for-IsSizedVote block h = record {
  vote_type = omega arith;
  height = omega arith;
  round = omega arith;
  block_hash = h;
  validator = omega arith;
  signature = omega arith;
}

abbrev both_votes : Evidence
both_votes = double_sign (vote_for 77) (vote_for 78)

abbrev bad_vote : Evidence
bad_vote = malformed_vote (vote_for 79) (65 ∷ [])

encodes :
    encode_evidence_list (both_votes ∷ bad_vote ∷ [])
    ≡ ok (bytes_of (encode_evidence_list (both_votes ∷ bad_vote ∷ [])))
unfolding encode_evidence_list dsn.Bytes.writes dsn.Bytes.write_uint
    dsn.Types.Signature.write_signature
encodes = refl

decode_evidence_list-encode_evidence_list_example :
    decode_evidence_list (bytes_of (encode_evidence_list (both_votes ∷ bad_vote ∷ [])) ++ 6 ∷ [])
    ≡ ok (both_votes ∷ bad_vote ∷ [], 6 ∷ [])
decode_evidence_list-encode_evidence_list_example =
    decode_evidence_list-encode_evidence_list (both_votes ∷ bad_vote ∷ [])
      (bytes_of (encode_evidence_list (both_votes ∷ bad_vote ∷ []))) (6 ∷ []) (omega arith)
      (
        (vote_for-IsSizedVote 77 (omega arith), vote_for-IsSizedVote 78 (omega arith)),
        ((vote_for-IsSizedVote 79 (omega arith), omega arith), tt),
      )
      encodes

abbrev summing : Crypto
summing = record { sha256 = foldl (λ n b. n + b) 0; verify = λ _ _ _. true }

abbrev punished : State
punished = (process_evidence summing both_votes 6 staked).1

punishes : process_evidence summing both_votes 6 staked ≡ (ok 21, punished)
unfolding process_evidence dsn.Bytes.writes dsn.Bytes.write_uint dsn.Types.Signature.write_signature
    dsn.Prelude.Map.lookup dsn.Staking.Validator.decode_validator dsn.Bytes.Do.◌>>=◌
    dsn.Bytes.read_uint dsn.Bytes.read_full dsn.Staking.Validator.encode_validator
    dsn.Bytes.write_padded dsn.Types.Amount.marshal dsn.Bytes.be_bytes dsn.Bytes.put_be
    dsn.State.Account.read_balance dsn.Types.Amount.unmarshal dsn.Bytes.Do.pure
    dsn.Bytes.be_bytes_fuel dsn.Bytes.be_value dsn.Bytes.write_bytes dsn.Bytes.zeros
    dsn.Consensus.Misbehaviour.first_vote is_evidence_processed
    dsn.Consensus.Misbehaviour.mark_evidence_processed dsn.Consensus.Misbehaviour.punish
    dsn.Consensus.Misbehaviour.slash_and_mark dsn.Prelude.Map.insert dsn.Prelude.Map.remove
    dsn.Staking.Registry.get_validator dsn.Staking.Registry.set_total_bonded
    dsn.Staking.Registry.stake_to_uint64 dsn.Staking.Registry.total_bonded
    dsn.Staking.Registry.update_validator dsn.Staking.Registry.with_voting_power
    dsn.Staking.Slashing.Offense.offense_from_evidence dsn.Staking.Slashing.Offense.slash_percent
    dsn.Staking.Slashing.Offense.slash_validator dsn.Staking.Slashing.apply_slash
    dsn.Staking.Slashing.get_slash_params dsn.Staking.Slashing.jail_if_active
    dsn.Staking.Slashing.slash_amount dsn.Staking.Slashing.take_slash
    dsn.Staking.Validator.allowed_transitions dsn.Staking.Validator.contains
    dsn.Staking.Validator.is_valid_transition dsn.Staking.Validator.transition_to
    dsn.State.Memory.get_bytes dsn.State.Memory.set_bytes dsn.State.Payload.counter
    dsn.State.Payload.uint64_of dsn.Types.Amount.is_zero dsn.Types.Amount.sub
    dsn.Types.Commit.encode_proof dsn.Types.Evidence.encode_evidence_body evidence_hash hashed_bytes
    validate_evidence dsn.Types.Vote.encode_vote dsn.Types.Vote.validate_vote
punishes = refl

process_evidence-once_example :
    (hash : ℕ) × (validate_evidence both_votes ≡ ok tt)
    × (evidence_hash summing both_votes ≡ ok hash)
    × (is_evidence_processed hash staked ≡ false)
    × (is_evidence_processed hash punished ≡ true)
    × ((u : State)
        → is_evidence_processed hash u ≡ true
        → process_evidence summing both_votes 9 u ≡ (err duplicate_evidence, u))
process_evidence-once_example =
    process_evidence-once summing both_votes 6 9 21 staked punished punishes

-- A digest that reads the bytes in their order.
abbrev chaining : Crypto
chaining = record { sha256 = foldl (λ n b. n * 257 + b + 1) 0; verify = λ _ _ _. true }

abbrev value_of : Result ℕ → ℕ
value_of (ok n) = n
value_of (err e) = 0

abbrev swapped_votes : Evidence
swapped_votes = double_sign (vote_for 78) (vote_for 77)

abbrev hash : ℕ
hash = value_of (evidence_hash chaining both_votes)

abbrev swapped_hash : ℕ
swapped_hash = value_of (evidence_hash chaining swapped_votes)

hashes : evidence_hash chaining both_votes ≡ ok hash
unfolding evidence_hash hashed_bytes dsn.Bytes.writes dsn.Bytes.write_uint
    dsn.Types.Signature.write_signature
hashes = refl

swapped_hashes : evidence_hash chaining swapped_votes ≡ ok swapped_hash
unfolding evidence_hash hashed_bytes dsn.Bytes.writes dsn.Bytes.write_uint
    dsn.Types.Signature.write_signature
swapped_hashes = refl

abbrev chained : State
chained = (process_evidence chaining both_votes 6 staked).1

chains : process_evidence chaining both_votes 6 staked ≡ (ok 21, chained)
unfolding process_evidence dsn.Bytes.writes dsn.Bytes.write_uint dsn.Types.Signature.write_signature
    dsn.Prelude.Map.lookup dsn.Staking.Validator.decode_validator dsn.Bytes.Do.◌>>=◌
    dsn.Bytes.read_uint dsn.Bytes.read_full dsn.Staking.Validator.encode_validator
    dsn.Bytes.write_padded dsn.Types.Amount.marshal dsn.Bytes.be_bytes dsn.Bytes.put_be
    dsn.State.Account.read_balance dsn.Types.Amount.unmarshal dsn.Bytes.Do.pure dsn.Bytes.be_value
    dsn.Bytes.be_bytes_fuel dsn.Bytes.write_bytes dsn.Bytes.zeros
    dsn.Consensus.Misbehaviour.first_vote is_evidence_processed
    dsn.Consensus.Misbehaviour.mark_evidence_processed punish
    dsn.Consensus.Misbehaviour.slash_and_mark dsn.Prelude.Map.insert dsn.Prelude.Map.remove
    dsn.Staking.Registry.get_validator dsn.Staking.Registry.set_total_bonded
    dsn.Staking.Registry.stake_to_uint64 dsn.Staking.Registry.total_bonded
    dsn.Staking.Registry.update_validator dsn.Staking.Registry.with_voting_power
    dsn.Staking.Slashing.Offense.offense_from_evidence dsn.Staking.Slashing.Offense.slash_percent
    dsn.Staking.Slashing.Offense.slash_validator dsn.Staking.Slashing.apply_slash
    dsn.Staking.Slashing.get_slash_params dsn.Staking.Slashing.jail_if_active
    dsn.Staking.Slashing.slash_amount dsn.Staking.Slashing.take_slash
    dsn.Staking.Validator.allowed_transitions dsn.Staking.Validator.contains
    dsn.Staking.Validator.is_valid_transition dsn.Staking.Validator.transition_to
    dsn.State.Memory.get_bytes dsn.State.Memory.set_bytes dsn.State.Payload.counter
    dsn.State.Payload.uint64_of dsn.Types.Amount.is_zero dsn.Types.Amount.sub
    dsn.Types.Commit.encode_proof evidence_hash hashed_bytes validate_evidence
    dsn.Types.Vote.encode_vote dsn.Types.Vote.validate_vote
chains = refl

hashes_differ : hash ≢ swapped_hash
unfolding evidence_hash hashed_bytes dsn.Bytes.writes dsn.Bytes.write_uint
    dsn.Types.Signature.write_signature dsn.Bytes.put_be
hashes_differ = omega arith

no_collision :
    (xs ys : Bytes)
    → hashed_bytes both_votes ≡ ok xs
    → hashed_bytes swapped_votes ≡ ok ys
    → chaining.sha256 xs ≡ chaining.sha256 ys
    → xs ≡ ys
unfolding evidence_hash
no_collision xs ys h h' same =
    let one : chaining.sha256 xs ≡ hash = ground (arith, hashes, h) in
    let two : chaining.sha256 ys ≡ swapped_hash = ground (arith, swapped_hashes, h') in
    absurd (hashes_differ (sym one ∙ same ∙ two))

process_evidence-swap_example :
    (validate_evidence swapped_votes ≡ ok tt)
    × (hash ≢ swapped_hash)
    × (is_evidence_processed swapped_hash chained ≡ is_evidence_processed swapped_hash staked)
    × (process_evidence chaining swapped_votes 9 chained ≡ (
        if is_evidence_processed swapped_hash staked
        then (err duplicate_evidence, chained)
        else punish swapped_votes swapped_hash 9 chained))
process_evidence-swap_example =
    process_evidence-swap chaining (vote_for 77) (vote_for 78) 6 9 21 hash swapped_hash staked
      chained (vote_for-IsSizedVote 77 (omega arith)) (vote_for-IsSizedVote 78 (omega arith))
      no_collision chains hashes swapped_hashes
