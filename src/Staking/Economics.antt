-- ===== src/Staking/Economics.antt =====
-- staking/economics.go, staking/treasury.go: the counters of the supply, the tokens that an epoch
-- issues, and the treasury.
pub mod Issued
pub mod EpochRewards
pub mod Keeps
use dsn.Prelude.{ℕ, ◌+◌, ◌*◌, ◌/◌, ◌^◌, none, some, length, take, ltb, ◌==◌, if◌then◌else◌, wrap64}
use dsn.Error.{Result, ok, err, panic, ◌>>=◌ as bind}
use dsn.Exec.{◌>>=◌, ◌>>◌, pure, lift, gets}
use dsn.Bytes.{put_be, be_value}
use dsn.State.Key.{
  Key, key_total_supply, key_treasury_supply, key_issued_supply, key_epoch_issuance,
  key_epoch_validator_pool,
}
use dsn.State.Memory.{State, Action, get_bytes, set_bytes}
use dsn.State.Payment.{pay}

-- readUint64: a missing or a short value counts as 0.
unfoldable pub read_uint64 : Key → State → ℕ
unfolding get_bytes
read_uint64 key s = elim (get_bytes key s) [
  | none ↦ 0
  | some bs ↦ if ltb (length bs) 8 then 0 else be_value (take 8 bs)
]

unfoldable pub write_uint64 : Key → ℕ → Action (Unit {0})
unfolding set_bytes
write_uint64 key val = set_bytes key (put_be 8 val)

abbrev pub yearly_inflation_basis_points : ℕ
yearly_inflation_basis_points = 500

abbrev pub basis_points_denominator : ℕ
basis_points_denominator = 10_000

abbrev pub seconds_per_year : ℕ
seconds_per_year = 365 * 24 * 60 * 60

-- An integer division by zero is a panic.
unfoldable pub epochs_per_year : ℕ → ℕ → Result ℕ
epochs_per_year block_time_sec blocks_per_epoch =
    let seconds = wrap64 (block_time_sec * blocks_per_epoch) in
    if seconds == 0 then err panic else ok (seconds_per_year / seconds)

-- The product with the supply is a big.Int; a result that is no uint64 counts as 0.
unfoldable pub issuance_of : ℕ → ℕ → Result ℕ
issuance_of total_supply epochs =
    if epochs == 0
    then ok 0
    else (let denom = wrap64 (epochs * basis_points_denominator) in
        let result = total_supply * yearly_inflation_basis_points / denom in
        if denom == 0 then err panic else if ltb result (2 ^ 64) then ok result else ok 0)

unfoldable pub per_epoch_issuance : ℕ → ℕ → ℕ → Result ℕ
unfolding epochs_per_year issuance_of
per_epoch_issuance total_supply block_time_sec blocks_per_epoch =
    bind (epochs_per_year block_time_sec blocks_per_epoch) (issuance_of total_supply)

-- The zero address.
abbrev pub treasury_address : ℕ
treasury_address = 0

unfoldable pub credit_treasury : ℕ → Action (Unit {0})
unfolding read_uint64 write_uint64 pay
credit_treasury amount = if amount == 0 then pure tt else do
  current ← gets (read_uint64 key_treasury_supply)
  write_uint64 key_treasury_supply (wrap64 (current + amount))
  pay treasury_address amount

unfoldable pub get_treasury_balance : State → ℕ
unfolding read_uint64
get_treasury_balance s = read_uint64 key_treasury_supply s

-- The writes of IssueEpochTokens, after the treasury is credited.
unfoldable pub record_issuance : ℕ → ℕ → ℕ → ℕ → Action (Unit {0})
unfolding read_uint64 write_uint64
record_issuance epoch total_supply issuance validator_amount = do
  write_uint64 key_total_supply (wrap64 (total_supply + issuance))
  issued ← gets (read_uint64 key_issued_supply)
  write_uint64 key_issued_supply (wrap64 (issued + issuance))
  write_uint64 (key_epoch_issuance epoch) issuance
  write_uint64 (key_epoch_validator_pool epoch) validator_amount

unfoldable pub issue_epoch_tokens : ℕ → ℕ → ℕ → Action ℕ
unfolding read_uint64 per_epoch_issuance credit_treasury record_issuance
issue_epoch_tokens epoch block_time_sec blocks_per_epoch = do
  total_supply ← gets (read_uint64 key_total_supply)
  issuance ← lift (per_epoch_issuance total_supply block_time_sec blocks_per_epoch)
  if issuance == 0 then pure 0 else (do
    credit_treasury (wrap64 (issuance * 10) / 100)
    record_issuance epoch total_supply issuance (wrap64 (issuance * 90) / 100)
    pure issuance)
