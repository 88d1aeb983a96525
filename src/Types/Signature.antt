-- ===== src/Types/Signature.antt =====
-- The two ways in which the codecs of types/ write a signature: behind one byte (transactions) and
-- behind four (votes and proposals).
use dsn.Prelude.{
  ◌%◌, ◌^◌, ◌≤◌, ◌≡◌, ltb, if◌then◌else◌, length, arith, Bool-cases, inl, inr, ◌++◌, [], ◌∷◌,
}
use dsn.Error.{Result, ok, err, invalid_signature, invalid_encoding, ◌>>=◌}
use dsn.Bytes.{Bytes, Reader, put_be, read_full, read_uint, write_uint, write_bytes, writes}
use dsn.Bytes.Do.{Inverts, Inverts-ok}
use dsn.Bytes.RoundTrip.{read_uint-put_be, read_full_exact}
use mathlib.Core.List.{append_assoc, append-nil}
use mathlib.Core.Path.{subst}

unfoldable pub write_short_signature : Bytes → Result Bytes
unfolding write_uint write_bytes writes
write_short_signature sig =
    if ltb 255 (length sig)
    then err invalid_signature
    else writes (write_uint 1 (length sig % 2 ^ 8) ∷ write_bytes sig ∷ [])

unfoldable pub read_short_signature : Reader Bytes
unfolding read_uint
read_short_signature bs = do (len, rest) ← read_uint 1 bs; read_full len rest

unfoldable pub write_signature : Bytes → Result Bytes
unfolding write_uint write_bytes writes
write_signature sig = writes (write_uint 4 (length sig % 2 ^ 32) ∷ write_bytes sig ∷ [])

unfoldable pub read_signature : Reader Bytes
unfolding read_uint
read_signature bs = do
  (len, rest) ← read_uint 4 bs
  if ltb 1024 len then err invalid_encoding else read_full len rest

short_round_trip :
    (sig rest : Bytes)
    → length sig ≤ 255
    → read_short_signature ((put_be 1 (length sig % 2 ^ 8) ++ (sig ++ [])) ++ rest) ≡ ok (sig, rest)
unfolding read_short_signature
short_round_trip sig rest h =
    rw (append-nil, append_assoc)
      (ground (
        arith,
        read_uint-put_be 1 (length sig % 2 ^ 8) (sig ++ rest) (omega arith),
        read_full_exact (length sig % 2 ^ 8) sig rest (omega arith),
      ))

pub Inverts-short_signature :
    (sig : Bytes) → Inverts (write_short_signature sig) read_short_signature sig
unfolding write_short_signature
Inverts-short_signature sig = record {
  at = λ bs rest e. elim (Bool-cases (ltb 255 (length sig))) [
    | inl long ↦ ground arith
    | inr fits ↦
        subst (λ (b : Bytes). read_short_signature (b ++ rest) ≡ ok (sig, rest)) (ground arith)
          (short_round_trip sig rest (ground arith))
  ];
}

signature_round_trip :
    (sig rest : Bytes)
    → length sig ≤ 1024
    → read_signature ((put_be 4 (length sig % 2 ^ 32) ++ (sig ++ [])) ++ rest) ≡ ok (sig, rest)
unfolding read_signature
signature_round_trip sig rest h =
    rw (append-nil, append_assoc)
      (ground (
        arith,
        read_uint-put_be 4 (length sig % 2 ^ 32) (sig ++ rest) (omega arith),
        read_full_exact (length sig % 2 ^ 32) sig rest (omega arith),
      ))

pub Inverts-signature :
    (sig : Bytes) → length sig ≤ 1024 → Inverts (write_signature sig) read_signature sig
unfolding write_signature
Inverts-signature sig h =
    Inverts-ok (put_be 4 (length sig % 2 ^ 32) ++ (sig ++ []))
      λ rest. signature_round_trip sig rest h
