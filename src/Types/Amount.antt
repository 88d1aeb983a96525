-- ===== src/Types/Amount.antt =====
-- types/amount.go. The *big.Int of an amount is a natural number: SetUint64, SetBytes, Add and a Sub
-- that is guarded give no negative value. A value is below 2 ^ 128 as long as it comes from Add.
use dsn.Prelude.{
  ℕ, ◌+◌, ◌-◌, ◌^◌, ◌≤◌, ◌<◌, ◌≡◌, Bool, ltb, leb, ◌==◌, if◌then◌else◌, length, arith,
}
use dsn.Error.{Result, ok, err, amount_overflow, amount_underflow}
use dsn.Bytes.{Bytes, be_bytes, be_value}
use dsn.Bytes.RoundTrip.{be_value-be_bytes, length-be_bytes-le}

abbrev pub Amount : Type 0
Amount = ℕ

abbrev pub IsAmount : Amount → Type 0
IsAmount a = a < 2 ^ 128

-- BitLen() > 128
unfoldable pub add : Amount → Amount → Result Amount
add a b = if leb (2 ^ 128) (a + b) then err amount_overflow else ok (a + b)

unfoldable pub sub : Amount → Amount → Result Amount
sub a b = if ltb a b then err amount_underflow else ok (a - b)

unfoldable pub is_zero : Amount → Bool
is_zero a = a == 0

unfoldable pub marshal : Amount → Bytes
marshal a = be_bytes a

unfoldable pub unmarshal : Bytes → Result Amount
unmarshal bs = if ltb 16 (length bs) then err amount_overflow else ok (be_value bs)

-- A sum that Add gives is an amount below 2 ^ 128, and Sub takes it back to the first term; Sub
-- fails on a larger subtrahend, and Add on a sum of 2 ^ 128 or more.
sub-add :
    (a b : Amount)
    → ((c : Amount) → add a b ≡ ok c → IsAmount c × (sub c b ≡ ok a))
      × (a < b → sub a b ≡ err amount_underflow)
      × (2 ^ 128 ≤ a + b → add a b ≡ err amount_overflow)
unfolding add sub
sub-add a b = (λ c h. ground arith, λ h. ground arith, λ h. ground arith)

-- An amount below 2 ^ 128 is read back from its bytes.
pub unmarshal-marshal : (a : Amount) → IsAmount a → unmarshal (marshal a) ≡ ok a
unfolding marshal unmarshal
unmarshal-marshal a h = ground (arith, be_value-be_bytes a, length-be_bytes-le 16 a h)
