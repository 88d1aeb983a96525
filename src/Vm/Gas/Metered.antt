-- ===== src/Vm/Gas/Metered.antt =====
-- A run of charges against one limit.
use dsn.Prelude.{ℕ, ◌+◌, ◌^◌, ◌<◌, ◌≤◌, ◌≡◌, arith, IsU64}
use dsn.Error.{ok, err, gas_limit_exceeded}
use dsn.Vm.Gas.{GasMeter, deduct, remaining}

pub record IsMetered (gm : GasMeter) : Type 0 where
  pub within : gm.used ≤ gm.limit
  pub sized : gm.limit < 2 ^ 64

-- On a meter that is within its limit, where the sum of the cost and what is used fits a uint64,
-- a charge that passes the limit is refused and leaves the meter as it is, and any other moves
-- exactly its cost from what remains to what is used.
deduct-exact :
    (cost : ℕ) (gm : GasMeter)
    → IsMetered gm
    → gm.used + cost < 2 ^ 64
    → (gm.limit < gm.used + cost → deduct cost gm ≡ (err gas_limit_exceeded, gm))
      × (gm.used + cost ≤ gm.limit
          → (deduct cost gm ≡ (ok tt, record gm { used = gm.used + cost }))
            × (remaining (deduct cost gm).1 + cost ≡ remaining gm))
unfolding deduct remaining
deduct-exact cost gm m f = (
  λ h. ground (arith, f, h),
  λ h. (ground (arith, f, h), ground (arith, f, h, m.within, m.sized)),
)

-- On a meter that is within its limit, a uint64 cost that brings the sum to 2 ^ 64 or more is
-- admitted, and less gas is used after it than before.
pub deduct_wraps :
    (cost : ℕ) (gm : GasMeter)
    → IsMetered gm
    → IsU64 cost
    → 2 ^ 64 ≤ gm.used + cost
    → ((deduct cost gm).0 ≡ ok tt) × ((deduct cost gm).1.used < gm.used)
unfolding deduct
deduct_wraps cost gm m f h =
    (ground (arith, f, h, m.within, m.sized), ground (arith, f, h, m.within, m.sized))
