-- ===== src/Staking/Economics/EpochRewards/Paid.antt =====
-- The rewards of an epoch add up to its pool, and that is what the accounts get.
use dsn.Prelude.{
  ℕ, ◌+◌, ◌-◌, ◌*◌, ◌/◌, ◌^◌, ◌<◌, ◌≤◌, ◌≡◌, ◌≢◌, refl, ap, ◌∙◌, List, [], ◌∷◌, some, length, ◌==◌,
  wrap64, arith, inl, inr, Bool-cases,
}
use native.Mathlib.Nat.{div-mul-le_self, le_of_mul-le-mul_right, mul-le-mul_left}
use dsn.Prelude.Sort
use dsn.Error.{ok}
use dsn.State.Key.{key_epoch_validator_pool}
use dsn.State.Memory.{State}
use dsn.State.Supply.{total, IsUnique, holds-le_total}
use dsn.State.Payment.{pay_lem}
use dsn.Staking.Validator.{Validator}
use dsn.Staking.Bonding.{portions, sum64, add_remainder, reward_shares}
use dsn.Staking.Economics.{read_uint64}
use dsn.Staking.Economics.EpochRewards.{
  reward_address_of, pay_rewards, pay_pool, distribute_validator_rewards,
}
use dsn.Consensus.Snapshot.{ValidatorSnapshot}
use dsn.Consensus.Snapshot.Power.{full_power}
use dsn.Consensus.Snapshot.Stored.{get_snapshot}

abbrev sum : List ℕ → ℕ
sum = Sort.total (λ x. x)

portions-le :
    (pool power : ℕ) (vs : List Validator)
    → pool * full_power vs < 2 ^ 64
    → (sum (portions pool power vs) * power ≤ pool * full_power vs)
      × (length (portions pool power vs) ≡ length vs)
unfolding portions full_power
portions-le pool power [] h = (omega arith, refl)
portions-le pool power (v ∷ vs) h =
    let split : pool * (v.voting_power + full_power vs)
        ≡ pool * v.voting_power + pool * full_power vs =
      grind arith in
    let (le, len) = portions-le pool power vs (omega (arith, split, h)) in
    let whole : wrap64 (pool * v.voting_power) ≡ pool * v.voting_power = omega (arith, split, h) in
    let first = div-mul-le_self (pool * v.voting_power) power in
    let x = wrap64 (pool * v.voting_power) / power in
    let here : x * power ≤ pool * v.voting_power = ground (arith, first, whole) in
    let sums : (x + sum (portions pool power vs)) * power
        ≡ x * power + sum (portions pool power vs) * power =
      grind arith in
    (omega (arith, sums, split, le, here), omega (arith, len))

-- Paying shares that the accounts have room for adds their sum to the balances.
pay_rewards-pays :
    (vs : List Validator) (xs : List ℕ) (s : State)
    → length xs ≡ length vs
    → IsUnique s.accounts
    → total s.accounts + sum xs < 2 ^ 128
    → (t : State) × (pay_rewards vs xs s ≡ (ok tt, t))
      × (total t.accounts ≡ total s.accounts + sum xs)
      × IsUnique t.accounts
      × (t.kvstore ≡ s.kvstore)
unfolding pay_rewards
pay_rewards-pays [] [] s l u h = (s, refl, omega arith, u, refl)
pay_rewards-pays [] (x ∷ xs) s l u h = ground (arith, l)
pay_rewards-pays (v ∷ vs) [] s l u h = ground (arith, l)
pay_rewards-pays (v ∷ vs) (x ∷ xs) s l u h = elim (Bool-cases (x == 0)) [
  | inl z ↦
      let (t, done, p, w, k) = pay_rewards-pays vs xs s (omega (arith, l)) u (omega (arith, h)) in
      (t, ground (arith, z, done), ground (arith, z, p), w, k)
  | inr z ↦
      let addr = reward_address_of v in
      let (s', paid, i) = pay_lem addr x s (omega (arith, h, holds-le_total addr s.accounts)) u in
      let (t, done, p, w, k) =
        pay_rewards-pays vs xs s' (omega (arith, l)) i.unique (omega (arith, h, i.total_eq)) in
      (t, ground (arith, z, paid, done), omega (arith, p, i.total_eq), w, k ∙ i.kept)
]

sum64-exact : (xs : List ℕ) → sum xs < 2 ^ 64 → sum64 xs ≡ sum xs
unfolding sum64
sum64-exact [] h = refl
sum64-exact (x ∷ xs) h = omega (arith, sum64-exact xs (omega (arith, h)))

sum-add_remainder :
    (pool : ℕ) (xs : List ℕ)
    → 0 < length xs
    → sum xs ≤ pool
    → pool < 2 ^ 64
    → sum (add_remainder (wrap64 (pool + 2 ^ 64 - sum xs)) xs) ≡ pool
unfolding add_remainder
sum-add_remainder pool [] h le fits = ground (arith, h)
sum-add_remainder pool (x ∷ xs) h le fits = omega (arith, le, fits)

length-add_remainder : (r : ℕ) (xs : List ℕ) → length (add_remainder r xs) ≡ length xs
unfolding add_remainder
length-add_remainder r [] = refl
length-add_remainder r (x ∷ xs) = refl

sum-reward_shares :
    (pool : ℕ) (vs : List Validator)
    → 0 < length vs
    → 0 < full_power vs
    → pool * full_power vs < 2 ^ 64
    → (sum (reward_shares pool (full_power vs) vs) ≡ pool)
      × (length (reward_shares pool (full_power vs) vs) ≡ length vs)
unfolding reward_shares
sum-reward_shares pool vs n p h =
    let xs = portions pool (full_power vs) vs in
    let (le, len) = portions-le pool (full_power vs) vs h in
    let le_pool : sum xs ≤ pool = le_of_mul-le-mul_right le p in
    let fits : pool < 2 ^ 64 = omega (arith, mul-le-mul_left pool p, h) in
    let exact = sum64-exact xs (omega (arith, le_pool, fits)) in
    (
      ap (λ k. sum (add_remainder (wrap64 (pool + 2 ^ 64 - k)) xs)) exact
          ∙ sum-add_remainder pool xs (omega (arith, n, len)) le_pool fits,
      length-add_remainder (wrap64 (pool + 2 ^ 64 - sum64 xs)) xs ∙ len,
    )

paid_pool :
    (pool : ℕ) (snap : ValidatorSnapshot) (s : State)
    → 0 < length snap.validators
    → 0 < full_power snap.validators
    → snap.total_power ≡ full_power snap.validators
    → pool * full_power snap.validators < 2 ^ 64
    → IsUnique s.accounts
    → total s.accounts + pool < 2 ^ 128
    → (t : State) × (pay_pool pool (some snap) s ≡ (ok tt, t))
      × (total t.accounts ≡ total s.accounts + pool)
      × IsUnique t.accounts
      × (t.kvstore ≡ s.kvstore)
unfolding pay_pool
paid_pool pool snap s n p q h u room =
    let (sums, len) = sum-reward_shares pool snap.validators n p h in
    let xs = reward_shares pool (full_power snap.validators) snap.validators in
    let (t, done, tot, w, k) =
      pay_rewards-pays snap.validators xs s len u (omega (arith, room, sums)) in
    (
      t,
      ground (
        arith,
        n,
        p,
        q,
        done,
        ap (λ k. pay_rewards snap.validators (reward_shares pool k snap.validators) s) q,
      ),
      omega (arith, tot, sums),
      w,
      k,
    )

-- Let the pool of an epoch after the first not be zero, the epoch before have a snapshot of
-- validators whose total is the sum of their powers and not zero, the pool's product with it fit a
-- uint64, no address be listed twice, and all balances with the pool stay below 2 ^ 128. The
-- distribution then succeeds, and pays out exactly the pool: that is what the balances grow by
-- together, and no entry of the key-value store changes.
pub distribute_validator_rewards-pays :
    (epoch : ℕ) (snap : ValidatorSnapshot) (s : State)
    → 1 < epoch
    → epoch < 2 ^ 64
    → read_uint64 (key_epoch_validator_pool epoch) s ≢ 0
    → get_snapshot (epoch - 1) s ≡ ok (some snap)
    → 0 < length snap.validators
    → 0 < full_power snap.validators
    → snap.total_power ≡ full_power snap.validators
    → read_uint64 (key_epoch_validator_pool epoch) s * full_power snap.validators < 2 ^ 64
    → IsUnique s.accounts
    → total s.accounts + read_uint64 (key_epoch_validator_pool epoch) s < 2 ^ 128
    → (t : State) × (distribute_validator_rewards epoch s ≡ (ok tt, t))
      × (total t.accounts ≡ total s.accounts + read_uint64 (key_epoch_validator_pool epoch) s)
      × IsUnique t.accounts
      × (t.kvstore ≡ s.kvstore)
unfolding distribute_validator_rewards
distribute_validator_rewards-pays epoch snap s h1 h64 hp hs n p q fits u room =
    let pool = read_uint64 (key_epoch_validator_pool epoch) s in
    let before : wrap64 (epoch + 2 ^ 64 - 1) ≡ epoch - 1 = omega (arith, h1, h64) in
    let (t, done, tot, w, k) = paid_pool pool snap s n p q fits u room in
    (t, ground (arith, hp, h1, before, hs, done, ap (λ e. get_snapshot e s) before), tot, w, k)
