-- ===== src/Types/Timestamp.antt =====
-- types/timestamp.go: ValidateTimestamp, with the clock's reading as an argument. The int64
-- difference of two uint64 values is the two's complement reading of the difference modulo 2 ^ 64.
use dsn.Prelude.{
  ℕ, ◌+◌, ◌-◌, ◌^◌, ◌≤◌, ◌<◌, ◌≡◌, ◌↔◌, ltb, leb, ◌&&◌, ◌||◌, if◌then◌else◌, arith, wrap64,
}
use dsn.Error.{Result, ok, err, invalid_timestamp}

-- int64(a) - int64(b), as a bit pattern.
abbrev diff64 : ℕ → ℕ → ℕ
diff64 a b = wrap64 (a + 2 ^ 64 - b)

-- A bit pattern read as an int64 is negative from 2 ^ 63 on; then it stands for itself less 2 ^ 64.
unfoldable pub validate_timestamp : ℕ → ℕ → Result (Unit {0})
validate_timestamp now ts =
    let drift = diff64 now ts in
    if (leb (2 ^ 63) drift && ltb drift (2 ^ 64 - 5)) || (ltb drift (2 ^ 63) && ltb 5 drift)
    then err invalid_timestamp
    else ok tt

-- Between times below 2 ^ 63, exactly those within five seconds of the clock pass.
validate_timestamp_iff :
    (now ts : ℕ)
    → now < 2 ^ 63
    → ts < 2 ^ 63
    → (validate_timestamp now ts ≡ ok tt) ↔ ((now ≤ ts + 5) × (ts ≤ now + 5))
unfolding validate_timestamp
validate_timestamp_iff now ts hn ht = (λ h. ground arith, λ h. ground arith)
