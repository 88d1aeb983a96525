-- ===== src/Staking/Registry/Power.antt =====
-- The voting power is the stake modulo 2 ^ 64 bits at most: it fits a uint64, and it is the stake
-- itself where that does.
use dsn.Prelude.{
  ℕ, zero, suc, ◌+◌, ◌-◌, ◌*◌, ◌^◌, ◌<◌, ◌≤◌, ◌≡◌, refl, arith, [], ◌∷◌, foldl, All, wrap64, drop,
  length, ◌∙◌, ap,
}
use dsn.Bytes.{Bytes, be_bytes, be_value}
use dsn.Bytes.RoundTrip.{IsByte, All-be_bytes, be_value-be_bytes, length-be_bytes-le}
use dsn.Types.Amount.{Amount, marshal}
use dsn.Staking.Registry.{stake_to_uint64}

abbrev shift_in : ℕ → ℕ → ℕ
shift_in val b = wrap64 (val * 256) + b

abbrev append : ℕ → ℕ → ℕ
append acc b = acc * 256 + b

foldl-shift_in-lt :
    (acc : ℕ) (bs : Bytes) → acc < 2 ^ 64 → All IsByte bs → foldl shift_in acc bs < 2 ^ 64
foldl-shift_in-lt acc [] h bytes = h
foldl-shift_in-lt acc (b ∷ bs) h bytes = foldl-shift_in-lt (shift_in acc b) bs (omega arith) bytes.1

All-drop : (n : ℕ) (bs : Bytes) → All IsByte bs → All IsByte (drop n bs)
All-drop zero bs h = h
All-drop (suc n) [] h = tt
All-drop (suc n) (b ∷ bs) h = All-drop n bs h.1

pub stake_to_uint64-lt : (stake : Amount) → stake_to_uint64 stake < 2 ^ 64
unfolding stake_to_uint64 marshal
stake_to_uint64-lt stake =
    let bs = be_bytes stake in
    foldl-shift_in-lt 0 (drop (length bs - 8) bs) (omega arith)
      (All-drop (length bs - 8) bs (All-be_bytes stake))

le-foldl-append : (acc : ℕ) (bs : Bytes) → acc ≤ foldl append acc bs
le-foldl-append acc [] = omega arith
le-foldl-append acc (b ∷ bs) = omega (arith, le-foldl-append (append acc b) bs)

foldl-shift_in :
    (acc : ℕ) (bs : Bytes)
    → foldl append acc bs < 2 ^ 64
    → foldl shift_in acc bs ≡ foldl append acc bs
foldl-shift_in acc [] h = refl
foldl-shift_in acc (b ∷ bs) h =
    let same : shift_in acc b ≡ append acc b =
      omega (arith, h, le-foldl-append (append acc b) bs) in
    ap (λ (x : ℕ). foldl shift_in x bs) same ∙ foldl-shift_in (append acc b) bs h

-- One token of stake is one unit of power, for a stake that fits a uint64.
pub stake_to_uint64_exact : (stake : Amount) → stake < 2 ^ 64 → stake_to_uint64 stake ≡ stake
unfolding stake_to_uint64 marshal be_value
stake_to_uint64_exact stake h =
    let bs = be_bytes stake in
    let value : foldl append 0 bs ≡ stake = be_value-be_bytes stake in
    let none_dropped : length bs - 8 ≡ 0 = omega (arith, length-be_bytes-le 8 stake h) in
    ap (λ (n : ℕ). foldl shift_in 0 (drop n bs)) none_dropped
    ∙ foldl-shift_in 0 bs (omega (arith, value, h))
    ∙ value
