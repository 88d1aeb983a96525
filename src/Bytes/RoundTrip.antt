-- ===== src/Bytes/RoundTrip.antt =====
-- Each reader inverts its writer.
use dsn.Prelude.{
  ℕ, zero, suc, ◌+◌, ◌-◌, ◌*◌, ◌/◌, ◌%◌, ◌^◌, ◌<◌, ◌≤◌, ◌≡◌, refl, ap, ◌∙◌, [], ◌∷◌, ◌++◌, arith,
  length, length-append, take-append_length, drop-append_length, Bool-cases, ltb, inl, inr, All,
}
use dsn.Error.{ok, ◌>>=◌}
use mathlib.Core.Path.{subst}
use dsn.Bytes.{
  Bytes, put_be, be_value, be_bytes_fuel, be_bytes, zeros, write_padded, read_full, read_uint,
  write_uint, write_bytes, write_var_bytes, read_var_bytes, max_var_bytes_length,
}
use dsn.Bytes.Do.{Inverts, Inverts-ok, Succeeds}
use mathlib.Core.List.{foldl-append, append_assoc, append-nil}
use native.Mathlib.Nat.{pow-suc}

pub length-put_be : (n v : ℕ) → length (put_be n v) ≡ n
unfolding put_be
length-put_be zero v = refl
length-put_be (suc n) v =
    omega (arith, length-append (put_be n (v / 256)) ((v % 256) ∷ []), length-put_be n (v / 256))

be_value-nil : be_value [] ≡ 0
unfolding be_value
be_value-nil = refl

pub be_value-append_one : (xs : Bytes) (b : ℕ) → be_value (xs ++ b ∷ []) ≡ be_value xs * 256 + b
unfolding be_value
be_value-append_one xs b = rw foldl-append

-- A number below 256 ^ n is the value of its n bytes.
pub be_value-put_be : (n v : ℕ) → v < 256 ^ n → be_value (put_be n v) ≡ v
unfolding put_be
be_value-put_be zero v h = be_value-nil ∙ omega arith
be_value-put_be (suc n) v h =
    be_value-append_one (put_be n (v / 256)) (v % 256)
    ∙ omega (arith, be_value-put_be n (v / 256) (omega (arith, pow-suc 256 n, h)))

pub read_full-append : (xs rest : Bytes) → read_full (length xs) (xs ++ rest) ≡ ok (xs, rest)
unfolding read_full
read_full-append [] rest = refl
read_full-append (x ∷ xs) rest =
    ground (arith, length-append xs rest, take-append_length xs rest, drop-append_length xs rest)

pub read_full_exact :
    (n : ℕ) (xs rest : Bytes) → length xs ≡ n → read_full n (xs ++ rest) ≡ ok (xs, rest)
read_full_exact n xs rest e =
    subst (λ (k : ℕ). read_full k (xs ++ rest) ≡ ok (xs, rest)) e (read_full-append xs rest)

pub read_uint-put_be :
    (n v : ℕ) (rest : Bytes) → v < 256 ^ n → read_uint n (put_be n v ++ rest) ≡ ok (v, rest)
unfolding read_uint
read_uint-put_be n v rest h =
    rw (read_full_exact n (put_be n v) rest (length-put_be n v), ◌>>=◌)
      (ap (λ (k : ℕ). ok (k, rest)) (be_value-put_be n v h))

pub Inverts-uint : (n v : ℕ) → v < 256 ^ n → Inverts (write_uint n v) (read_uint n) v
unfolding write_uint
Inverts-uint n v h = Inverts-ok (put_be n v) (λ rest. read_uint-put_be n v rest h)

pub Inverts-full : (n : ℕ) (xs : Bytes) → length xs ≡ n → Inverts (write_bytes xs) (read_full n) xs
unfolding write_bytes
Inverts-full n xs e = Inverts-ok xs (λ rest. read_full_exact n xs rest e)

read_var_bytes-put_be :
    (xs rest : Bytes)
    → length xs ≤ max_var_bytes_length
    → read_var_bytes ((put_be 4 (length xs % 2 ^ 32) ++ (xs ++ [])) ++ rest) ≡ ok (xs, rest)
unfolding read_var_bytes
read_var_bytes-put_be xs rest h =
    rw (append-nil, append_assoc)
      (ground (
        arith,
        read_uint-put_be 4 (length xs % 2 ^ 32) (xs ++ rest) (omega arith),
        read_full_exact (length xs % 2 ^ 32) xs rest (omega arith),
      ))

pub Inverts-var_bytes : (xs : Bytes) → Inverts (write_var_bytes xs) read_var_bytes xs
unfolding write_var_bytes
Inverts-var_bytes xs = record {
  at = λ bs rest e. elim (Bool-cases (ltb max_var_bytes_length (length xs))) [
    | inl long ↦ ground arith
    | inr fits ↦
        subst (λ (b : Bytes). read_var_bytes (b ++ rest) ≡ ok (xs, rest)) (ground arith)
          (read_var_bytes-put_be xs rest (ground arith))
  ];
}

-- big.Int.SetBytes inverts big.Int.Bytes.
be_value-be_bytes_fuel : (f v : ℕ) → v ≤ f → be_value (be_bytes_fuel f v) ≡ v
unfolding be_bytes_fuel
be_value-be_bytes_fuel zero v h = be_value-nil ∙ omega arith
be_value-be_bytes_fuel (suc f) v h = ground (
  arith,
  be_value-nil,
  be_value-append_one (be_bytes_fuel f (v / 256)) (v % 256),
  be_value-be_bytes_fuel f (v / 256),
)

pub be_value-be_bytes : (v : ℕ) → be_value (be_bytes v) ≡ v
unfolding be_bytes
be_value-be_bytes v = be_value-be_bytes_fuel v v (omega arith)

length-be_bytes_fuel-le : (f n v : ℕ) → v < 256 ^ n → length (be_bytes_fuel f v) ≤ n
unfolding be_bytes_fuel
length-be_bytes_fuel-le zero n v h = omega arith
length-be_bytes_fuel-le (suc f) zero v h = ground arith
length-be_bytes_fuel-le (suc f) (suc n) v h = ground (
  arith,
  length-append (be_bytes_fuel f (v / 256)) ((v % 256) ∷ []),
  pow-suc 256 n,
  length-be_bytes_fuel-le f n (v / 256),
)

pub length-be_bytes-le : (n v : ℕ) → v < 256 ^ n → length (be_bytes v) ≤ n
unfolding be_bytes
length-be_bytes-le n v h = length-be_bytes_fuel-le v n v h

length-zeros : (n : ℕ) → length (zeros n) ≡ n
unfolding zeros
length-zeros zero = refl
length-zeros (suc n) = ap suc (length-zeros n)

be_value-zeros : (n : ℕ) (xs : Bytes) → be_value (zeros n ++ xs) ≡ be_value xs
unfolding zeros be_value
be_value-zeros zero xs = refl
be_value-zeros (suc n) xs = be_value-zeros n xs

-- A number written in `n` bytes with zeros in front is read back.
pub padded_lem :
    (n v : ℕ)
    → v < 256 ^ n
    → (bs : Bytes) × (write_padded n (be_bytes v) ≡ ok bs) × (length bs ≡ n) × (be_value bs ≡ v)
unfolding write_padded
padded_lem n v h =
    let fits = length-be_bytes-le n v h in
    let pad = zeros (n - length (be_bytes v)) in
    (
      pad ++ be_bytes v,
      ground (arith, fits),
      omega (arith, length-append pad (be_bytes v), length-zeros (n - length (be_bytes v)), fits),
      be_value-zeros (n - length (be_bytes v)) (be_bytes v) ∙ be_value-be_bytes v,
    )

pub Succeeds-uint : (n v : ℕ) → Succeeds (write_uint n v)
unfolding write_uint
Succeeds-uint n v = (put_be n v, refl)

pub Succeeds-padded : (n v : ℕ) → v < 256 ^ n → Succeeds (write_padded n (be_bytes v))
Succeeds-padded n v h = let (bs, written, _, _) = padded_lem n v h in (bs, written)

-- Every byte that big.Int.Bytes gives is below 256.
abbrev pub IsByte : ℕ → Type 0
IsByte b = b < 256

All-append_one : (xs : Bytes) (b : ℕ) → All IsByte xs → IsByte b → All IsByte (xs ++ b ∷ [])
All-append_one [] b h hb = (hb, tt)
All-append_one (x ∷ xs) b h hb = (h.0, All-append_one xs b h.1 hb)

All-be_bytes_fuel : (f v : ℕ) → All IsByte (be_bytes_fuel f v)
unfolding be_bytes_fuel
All-be_bytes_fuel zero v = tt
All-be_bytes_fuel (suc f) v = ground (
  arith,
  All-append_one (be_bytes_fuel f (v / 256)) (v % 256) (All-be_bytes_fuel f (v / 256))
      (omega arith),
)

pub All-be_bytes : (v : ℕ) → All IsByte (be_bytes v)
unfolding be_bytes
All-be_bytes v = All-be_bytes_fuel v v
