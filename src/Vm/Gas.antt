-- ===== src/Vm/Gas.antt =====
-- vm/gas.go: the gas meter of a contract's execution.
pub mod Metered
use dsn.Prelude.{ℕ, ◌+◌, ◌-◌, ◌^◌, Bool, ltb, if◌then◌else◌, wrap64}
use dsn.Error.{Error, Result, ok, err, gas_limit_exceeded}
use dsn.Exec.{Exec}

pub record GasMeter : Type 0 where
  pub limit : ℕ
  pub used : ℕ

unfoldable pub new_gas_meter : ℕ → GasMeter
new_gas_meter limit = record { limit = limit; used = 0 }

-- The sum is computed in uint64.
unfoldable pub deduct : ℕ → Exec GasMeter (Unit {0})
deduct cost gm =
    if ltb gm.limit (wrap64 (gm.used + cost))
    then (err gas_limit_exceeded, gm)
    else (ok tt, record gm { used = wrap64 (gm.used + cost) })

-- A uint64 difference.
unfoldable pub remaining : GasMeter → ℕ
remaining gm = wrap64 (gm.limit + (2 ^ 64 - gm.used))
