-- ===== src/Types/Contract/Meta/Height.antt =====
-- The block height of types/contract_meta.go does not survive: the writer puts a four-byte length
-- before the variable-length number, and the reader takes that length's first byte for the number.
use dsn.Prelude.{
  ℕ, ◌^◌, ◌/◌, ◌%◌, ◌<◌, ◌≤◌, ◌≡◌, List, [], ◌∷◌, ◌++◌, length, ltb, leb, arith, ◌∙◌, Bool-cases,
  inl, inr,
}
use dsn.Error.{Result, ok}
use dsn.Bytes.{Bytes, Reader, put_be, be_value, read_uint, read_full, write_var_bytes, writes}
use dsn.Bytes.Do.{◌>>=◌, pure, Inverts, writes-eq_ok, bind_ok}
use dsn.Bytes.RoundTrip.{Inverts-uint, length-put_be}
use dsn.Types.Contract.Meta.{
  ContractMetadata, write_var_uint64, read_var_uint64, read_var_uint64_rest, encode_meta,
  decode_meta,
}
use mathlib.Core.List.{append_assoc}

-- What `w` writes, `r` reads as `a`, without a claim on what it leaves.
record Yields {ℓ} {A : Type ℓ} (w : Result Bytes) (r : Reader A) (a : A) : Type ℓ where
  at : (bs rest : Bytes) → w ≡ ok bs → (left : Bytes) × (r (bs ++ rest) ≡ ok (a, left))

Yields-cons {ℓ κ} :
    {A : Type ℓ} {B : Type κ} {w : Result Bytes} (ws : List (Result Bytes)) {m : Reader A}
    (f : A → Reader B) {a : A} {b : B}
    → Inverts w m a
    → Yields (writes ws) (f a) b
    → Yields (writes (w ∷ ws)) (m >>= f) b
Yields-cons {w = w} ws {m = m} f {a = a} p q = record {
  at = λ bs rest e.
      let (x, y, ex, ey, exy) = writes-eq_ok w ws bs e in
      let (left, h) = q.at y rest ey in
      (
        left,
        rw (exy, append_assoc)
            (bind_ok m f (x ++ (y ++ rest)) (y ++ rest) a (p.at x (y ++ rest) ex) ∙ h),
      );
}

Yields-last {ℓ κ} :
    {A : Type ℓ} {B : Type κ} {w : Result Bytes} {m : Reader A} (g : A → B) {a : A}
    → Yields w m a
    → Yields (writes (w ∷ [])) (m >>= λ x. pure (g x)) (g a)
unfolding pure
Yields-last {w = w} {m = m} g {a = a} p = record {
  at = λ bs rest e.
      let (x, y, ex, ey, exy) = writes-eq_ok w [] bs e in
      let (left, h) = p.at x (y ++ rest) ex in
      (left, rw (exy, append_assoc) (bind_ok m (λ v. pure (g v)) (x ++ (y ++ rest)) left a h));
}

-- A short slice is written behind a length whose first byte is 0.
write_var_bytes_short :
    (xs bs : Bytes) → length xs ≤ 9 → write_var_bytes xs ≡ ok bs → (tail : Bytes) × (bs ≡ 0 ∷ tail)
unfolding write_var_bytes put_be
write_var_bytes_short xs bs h e =
    let n = length xs % 2 ^ 32 in
    ((n / 256 / 256 % 256) ∷ (n / 256 % 256) ∷ (n % 256) ∷ (xs ++ []), ground arith)

write_var_uint64_zero :
    (v : ℕ) (bs : Bytes) → write_var_uint64 v ≡ ok bs → (tail : Bytes) × (bs ≡ 0 ∷ tail)
unfolding write_var_uint64
write_var_uint64_zero v bs e = elim (Bool-cases (ltb v 0xFD)) [
  | inl a ↦ write_var_bytes_short (put_be 1 v) bs (omega (arith, length-put_be 1 v)) (ground arith)
  | inr a ↦ elim (Bool-cases (leb v 0xFFFF)) [
    | inl b ↦
        write_var_bytes_short (0xFD ∷ put_be 2 v) bs (omega (arith, length-put_be 2 v))
          (ground arith)
    | inr b ↦ elim (Bool-cases (leb v 0xFFFFFFFF)) [
      | inl c ↦
          write_var_bytes_short (0xFE ∷ put_be 4 v) bs (omega (arith, length-put_be 4 v))
            (ground arith)
      | inr c ↦
          write_var_bytes_short (0xFF ∷ put_be 8 v) bs (omega (arith, length-put_be 8 v))
            (ground arith)
    ]
  ]
]

Yields-var_uint64 : (v : ℕ) → Yields (write_var_uint64 v) read_var_uint64 0
unfolding read_var_uint64 read_var_uint64_rest read_uint read_full be_value ◌>>=◌ pure
Yields-var_uint64 v = record {
  at = λ bs rest e.
      let (tail, h) = write_var_uint64_zero v bs e in (tail ++ rest, rw h (ground arith));
}

-- Metadata whose hashes and address fit their types and whose encoding succeeds decodes with the
-- block height 0, whatever it was, and all else as it was, whatever follows.
pub decode_meta-encode_meta :
    (m : ContractMetadata) (bs rest : Bytes)
    → m.contract_id < 2 ^ 256
    → m.code_hash < 2 ^ 256
    → m.deployer < 2 ^ 160
    → encode_meta m ≡ ok bs
    → (left : Bytes) × (decode_meta (bs ++ rest) ≡ ok (record m { block_height = 0 }, left))
unfolding encode_meta decode_meta
decode_meta-encode_meta m bs rest hi hc hd =
    (Yields-cons _ _ (Inverts-uint 32 m.contract_id hi) (
        Yields-cons _ _ (Inverts-uint 32 m.code_hash hc) (
          Yields-cons _ _ (Inverts-uint 20 m.deployer hd) (
            Yields-last
              (λ h. record {
                contract_id = m.contract_id;
                code_hash = m.code_hash;
                deployer = m.deployer;
                block_height = h;
              })
              (Yields-var_uint64 m.block_height))))).at
      bs rest
