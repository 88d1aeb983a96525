-- ===== src/Staking/Rewards/Fees.antt =====
-- The split of the fees.
use dsn.Prelude.{◌+◌, ◌*◌, ◌^◌, ◌<◌, ◌≤◌, arith}
use dsn.Types.Amount.{Amount}
use dsn.Staking.Registry.Power.{stake_to_uint64_exact}
use dsn.Staking.Bonding.{amount_fraction}
use dsn.Staking.Rewards.{split_fees}

-- The three shares of fees of which 70 times fit a uint64 do not exceed the fees together, and
-- less than three units of the fees are in none of them.
split_fees_exact :
    (fees : Amount)
    → fees * 70 < 2 ^ 64
    → ((split_fees fees).validators + (split_fees fees).burn + (split_fees fees).treasury ≤ fees)
      × (fees
          < (split_fees fees).validators + (split_fees fees).burn + (split_fees fees).treasury + 3)
unfolding split_fees amount_fraction
split_fees_exact fees h =
    let e = stake_to_uint64_exact fees (omega (arith, h)) in (ground (arith, e), ground (arith, e))
