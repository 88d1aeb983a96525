-- ===== src/Staking/Slashing/Bounds.antt =====
-- The amount of a slash: the exact share of a small stake, and never more than the stake.
use dsn.Prelude.{ℕ, ◌*◌, ◌/◌, ◌^◌, ◌<◌, ◌≤◌, ◌≡◌, arith}
use native.Mathlib.Nat.{div-le_of_le-mul}
use dsn.Error.{ok}
use dsn.Types.Amount.{Amount}
use dsn.Staking.Registry.Power.{stake_to_uint64_exact}
use dsn.Staking.Slashing.{slash_amount}

-- For a percentage of at most 10000 basis points and a stake that, with its product, fits a
-- uint64, the amount is the stated share, rounded down, and at most the stake.
pub slash_amount_exact :
    (percent : ℕ) (stake : Amount)
    → percent ≤ 10000
    → stake < 2 ^ 64
    → stake * percent < 2 ^ 64
    → (slash_amount percent stake ≡ ok (stake * percent / 10000))
      × (stake * percent / 10000 ≤ stake)
unfolding slash_amount
slash_amount_exact percent stake hp hs fits =
    (ground (arith, stake_to_uint64_exact stake hs), div-le_of_le-mul 10000 (grind arith))
