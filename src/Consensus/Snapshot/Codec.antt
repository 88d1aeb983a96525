-- ===== src/Consensus/Snapshot/Codec.antt =====
-- staking/snapshot.go: the binary form of a validator set snapshot.
use dsn.Prelude.{
  ℕ, zero, suc, ◌-◌, ◌^◌, ◌<◌, ◌≤◌, ◌≡◌, List, [], ◌∷◌, ◌++◌, map, length, take, drop, ltb,
  if◌then◌else◌, wrap64, arith, All, ◌∙◌, refl, ap, Bool-cases, inl, inr,
}
use dsn.Error.{Result, ok, err, eof, panic, ◌>>=◌ as bind}
use mathlib.Core.Path.{subst}
use mathlib.Core.List.{append-nil}
use dsn.Bytes.{Bytes, Reader, put_be, be_value, zeros, read_full, read_uint, write_uint, writes}
use dsn.Bytes.Do.{◌>>=◌, pure, fail, Inverts, Inverts-ok, Inverts-cons, Inverts-map, Inverts-nil}
use dsn.Bytes.RoundTrip.{Inverts-uint, read_uint-put_be}
use dsn.Staking.Validator.{Validator, IsSizedValidator, encode_validator, decode_validator}
use dsn.Staking.Validator.Laws.{decode_validator-encode_validator}
use dsn.Consensus.Snapshot.{ValidatorSnapshot}

-- Read into an array of `n` bytes, of what there is: the rest of the array stays zero, and only
-- an empty reader is an error.
unfoldable pub read_some : ℕ → Reader ℕ
unfolding be_value zeros
read_some n [] = err eof
read_some n (b ∷ bs) =
    let got = take n (b ∷ bs) in ok (be_value (got ++ zeros (n - length got)), drop n (b ∷ bs))

unfoldable pub marshal_snapshot : ValidatorSnapshot → Result Bytes
marshal_snapshot s = writes (
    write_uint 8 s.epoch
    ∷ write_uint 8 (wrap64 (length s.validators))
    ∷ writes (map encode_validator s.validators)
    ∷ write_uint 8 s.total_power
    ∷ write_uint 32 s.set_hash
    ∷ [])

unfoldable pub decode_validators : ℕ → Reader (List Validator)
decode_validators zero = pure []
decode_validators (suc count) = do v ← decode_validator; vs ← decode_validators count; pure (v ∷ vs)

-- `make` of a slice of more pointers than the address space holds is a panic.
unfoldable pub read_validators : ℕ → Reader (List Validator)
unfolding decode_validators fail
read_validators count = if ltb (2 ^ 45) count then fail panic else decode_validators count

unfoldable pub decode_snapshot : Reader ValidatorSnapshot
unfolding read_some
decode_snapshot = do
  epoch ← read_uint 8
  count ← read_uint 8
  validators ← read_validators count
  total_power ← read_uint 8
  set_hash ← read_some 32
  pure (record {
    epoch = epoch;
    validators = validators;
    total_power = total_power;
    set_hash = set_hash;
  })

-- UnmarshalBinary: bytes that are left over are not looked at.
unfoldable pub unmarshal_snapshot : Bytes → Result ValidatorSnapshot
unfolding decode_snapshot
unmarshal_snapshot bs = bind (decode_snapshot bs) (λ p. ok p.0)

-- The fields fit their Go types, and the set the address space.
pub record IsSizedSnapshot (s : ValidatorSnapshot) : Type 0 where
  pub epoch : s.epoch < 2 ^ 64
  pub validators : All IsSizedValidator s.validators
  pub count : length s.validators ≤ 2 ^ 45
  pub total_power : s.total_power < 2 ^ 64
  pub set_hash : s.set_hash < 2 ^ 256

Inverts-validators :
    (vs : List Validator)
    → All IsSizedValidator vs
    → Inverts (writes (map encode_validator vs)) (decode_validators (length vs)) vs
unfolding decode_validators
Inverts-validators [] h = Inverts-nil []
Inverts-validators (v ∷ vs) h =
    Inverts-cons _ _ (record { at = λ bs rest. decode_validator-encode_validator v bs rest h.0 })
      (Inverts-map (λ us. v ∷ us) (Inverts-validators vs h.1))

Inverts-set :
    (vs : List Validator)
    → length vs ≤ 2 ^ 45
    → All IsSizedValidator vs
    → Inverts (writes (map encode_validator vs)) (read_validators (wrap64 (length vs))) vs
unfolding read_validators
Inverts-set vs fits h =
    subst (λ (r : Reader (List Validator)). Inverts (writes (map encode_validator vs)) r vs)
      (ground arith) (Inverts-validators vs h)

length-take_le : (n : ℕ) (xs : Bytes) → n ≤ length xs → length (take n xs) ≡ n
length-take_le zero xs h = refl
length-take_le (suc n) [] h = ground arith
length-take_le (suc n) (x ∷ xs) h = omega (arith, length-take_le n xs (omega arith))

-- A whole array has nothing to fill up.
be_value-whole :
    (n : ℕ) (xs : Bytes) → length xs ≡ n → be_value (xs ++ zeros (n - length xs)) ≡ be_value xs
unfolding zeros
be_value-whole n xs h =
    let none_left : n - length xs ≡ 0 = omega (arith, h) in
    ap (λ k. be_value (xs ++ zeros k)) none_left ∙ ap be_value (append-nil xs)

-- A whole array is read as io.ReadFull reads it.
read_some-read_uint :
    (n v : ℕ) (bs rest : Bytes)
    → read_uint (suc n) bs ≡ ok (v, rest)
    → read_some (suc n) bs ≡ ok (v, rest)
unfolding read_uint read_full read_some
read_some-read_uint n v [] rest h = ground (arith, h)
read_some-read_uint n v (b ∷ bs) rest h = elim (Bool-cases (ltb (length bs) n)) [
  | inl e ↦ ground (arith, h, e)
  | inr e ↦
      let fits : length (take (suc n) (b ∷ bs)) ≡ suc n =
        length-take_le (suc n) (b ∷ bs) (ground (arith, e)) in
      let whole = be_value-whole (suc n) (take (suc n) (b ∷ bs)) fits in
      let read : ok (be_value (take (suc n) (b ∷ bs)), drop (suc n) (b ∷ bs)) ≡ ok (v, rest) =
        ground (arith, h, e) in
      ap (λ k. ok (k, drop (suc n) (b ∷ bs))) whole ∙ read
]

Inverts-some : (n v : ℕ) → v < 256 ^ suc n → Inverts (write_uint (suc n) v) (read_some (suc n)) v
unfolding write_uint
Inverts-some n v h = Inverts-ok (put_be (suc n) v) (λ rest.
    read_some-read_uint n v (put_be (suc n) v ++ rest) rest (read_uint-put_be (suc n) v rest h))

Inverts-snapshot :
    (s : ValidatorSnapshot) → IsSizedSnapshot s → Inverts (marshal_snapshot s) decode_snapshot s
unfolding marshal_snapshot decode_snapshot
Inverts-snapshot s z = Inverts-cons _ _ (Inverts-uint 8 s.epoch z.epoch) (
    Inverts-cons _ _ (Inverts-uint 8 (wrap64 (length s.validators)) (omega arith)) (
      Inverts-cons _ _ (Inverts-set s.validators z.count z.validators) (
        Inverts-cons _ _ (Inverts-uint 8 s.total_power z.total_power)
          (Inverts-cons _ _ (Inverts-some 31 s.set_hash z.set_hash) (Inverts-nil s)))))

-- A snapshot of at most 2 ^ 45 validators whose fields fit their types is unmarshalled from its
-- binary form where marshalling succeeds.
pub unmarshal_snapshot-marshal_snapshot :
    (s : ValidatorSnapshot) (bs : Bytes)
    → IsSizedSnapshot s
    → marshal_snapshot s ≡ ok bs
    → unmarshal_snapshot bs ≡ ok s
unfolding unmarshal_snapshot
unmarshal_snapshot-marshal_snapshot s bs z e =
    let whole : decode_snapshot bs ≡ ok (s, []) =
      subst (λ (b : Bytes). decode_snapshot b ≡ ok (s, [])) (append-nil bs)
        ((Inverts-snapshot s z).at bs [] e) in
    ground (arith, whole)
