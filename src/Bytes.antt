-- ===== src/Bytes.antt =====
-- Byte slices and the encoding/binary and io calls that the codecs make. A byte is a number below
-- 256. A fixed array ([20]byte, [32]byte) is the number that its bytes spell in big-endian order,
-- so that bytes.Compare of two such arrays is the order of the numbers.
pub mod Do
pub mod RoundTrip
use dsn.Prelude.{
  ℕ, zero, suc, ◌+◌, ◌*◌, ◌/◌, ◌%◌, List, [], ◌∷◌, ◌++◌, foldl, ◌^◌, ◌-◌, true, false, ◌==◌, ltb,
  if◌then◌else◌, length, take, drop,
}
use dsn.Error.{
  Result, ok, err, eof, unexpected_eof, invalid_encoding, payload_too_large, panic, ◌>>=◌,
}

abbrev pub Bytes : Type 0
Bytes = List ℕ

-- The low `n` bytes of a number, the most significant first (binary.BigEndian.Put..., and an array
-- written as it is).
unfoldable pub put_be : ℕ → ℕ → Bytes
put_be zero v = []
put_be (suc n) v = put_be n (v / 256) ++ (v % 256) ∷ []

-- binary.BigEndian.Uint... of a slice of the right length, and big.Int.SetBytes of any.
unfoldable pub be_value : Bytes → ℕ
be_value = foldl (λ acc b. acc * 256 + b) 0

-- What is read from an io.Reader over a byte slice: the value and the bytes that are left.
abbrev pub Reader {ℓ} : Type ℓ → Type ℓ
Reader A = Bytes → Result (A × Bytes)

-- io.ReadFull into a buffer of `n` bytes.
unfoldable pub read_full : ℕ → Reader Bytes
read_full zero bs = ok ([], bs)
read_full (suc n) [] = err eof
read_full (suc n) (b ∷ bs) =
    if ltb (length bs) n
    then err unexpected_eof
    else ok (take (suc n) (b ∷ bs), drop (suc n) (b ∷ bs))

-- binary.Read of an unsigned integer of `n` bytes, or a fixed array of that size.
unfoldable pub read_uint : ℕ → Reader ℕ
read_uint n bs = do (xs, rest) ← read_full n bs; ok (be_value xs, rest)

-- binary.Write and Write into a bytes.Buffer do not fail.
unfoldable pub write_uint : ℕ → ℕ → Result Bytes
write_uint n v = ok (put_be n v)

unfoldable pub write_bytes : Bytes → Result Bytes
write_bytes bs = ok bs

-- Writes made one after the other; the first error ends them.
unfoldable pub writes : List (Result Bytes) → Result Bytes
writes [] = ok []
writes (w ∷ ws) = do bs ← w; rest ← writes ws; ok (bs ++ rest)

-- What such writes leave behind them, up to the first error.
unfoldable pub written : List (Result Bytes) → Bytes
written [] = []
written (w ∷ ws) = let rest = written ws in elim w [ ok bs ↦ bs ++ rest | err _ ↦ [] ]

-- types/serializer.go: MaxVarBytesLength, writeVarBytes, readVarBytes.
abbrev pub max_var_bytes_length : ℕ
max_var_bytes_length = 1 * 1024 * 1024

unfoldable pub write_var_bytes : Bytes → Result Bytes
unfolding write_uint write_bytes writes
write_var_bytes bs =
    if ltb max_var_bytes_length (length bs)
    then err invalid_encoding
    else writes (write_uint 4 (length bs % 2 ^ 32) ∷ write_bytes bs ∷ [])

unfoldable pub read_var_bytes : Reader Bytes
unfolding read_uint
read_var_bytes bs = do
  (len, rest) ← read_uint 4 bs
  if ltb max_var_bytes_length len then err payload_too_large else read_full len rest

-- big.Int.Bytes: no leading zero byte. The number itself is fuel enough, since it shrinks.
unfoldable pub be_bytes_fuel : ℕ → ℕ → Bytes
be_bytes_fuel zero v = []
be_bytes_fuel (suc f) v = elim (v == 0) [
  | true ↦ []
  | false ↦ be_bytes_fuel f (v / 256) ++ (v % 256) ∷ []
]

unfoldable pub be_bytes : ℕ → Bytes
unfolding be_bytes_fuel
be_bytes v = be_bytes_fuel v v

unfoldable pub zeros : ℕ → Bytes
zeros zero = []
zeros (suc n) = 0 ∷ zeros n

-- `var buf [16]byte; copy(buf[16-len(bs):], bs)`, whose slice bound is negative for a longer `bs`.
unfoldable pub write_padded : ℕ → Bytes → Result Bytes
unfolding zeros
write_padded n bs = if ltb n (length bs) then err panic else ok (zeros (n - length bs) ++ bs)
