-- ===== src/Staking/Economics/Issued.antt =====
-- What an epoch's issuance does to the counters and the accounts.
use dsn.Prelude.{
  ℕ, zero, suc, ◌+◌, ◌*◌, ◌/◌, ◌^◌, ◌<◌, ◌≤◌, ◌≡◌, ◌≢◌, refl, ap, ◌∙◌, ◌==◌, if◌then◌else◌, wrap64,
  arith, inl, inr, Bool-cases, take-whole,
}
use mathlib.Core.Path.{subst⁻¹}
use native.Mathlib.Nat.{div-mul-le_self, div-le_self, lt-mul-div-succ, le-div_iff_mul-le}
use dsn.Prelude.Map.{lookup-insert}
use dsn.Error.{ok}
use dsn.Bytes.{put_be, be_value}
use dsn.Bytes.RoundTrip.{length-put_be, be_value-put_be}
use dsn.State.Key.{
  Key, key_eq, key_total_supply, key_treasury_supply, key_issued_supply, key_epoch_issuance,
  key_epoch_validator_pool,
}
use dsn.State.Memory.{State, get_bytes, set_bytes}
use dsn.State.Supply.{total, holds, IsUnique}
use dsn.State.Payment.{pay_lem}
use dsn.Staking.Economics.{
  read_uint64, write_uint64, epochs_per_year, issuance_of, per_epoch_issuance, treasury_address,
  credit_treasury, record_issuance, issue_epoch_tokens,
}

le_mul : (n r : ℕ) → 0 < n → r ≤ n * r
le_mul zero r h = ground (arith, h)
le_mul (suc k) r h = omega arith

-- A quotient that is rounded down.
issuance_of_floor :
    (supply n : ℕ)
    → 0 < n
    → n ≤ 31_536_000
    → supply < 2 ^ 64
    → (i : ℕ) × (issuance_of supply n ≡ ok i) × (n * i * 20 ≤ supply) × (supply < n * (i + 1) * 20)
unfolding issuance_of
issuance_of_floor supply n z h small =
    let r = supply * 500 / (n * 10_000) in
    let d : wrap64 (n * 10_000) ≡ n * 10_000 = omega (arith, h) in
    let low : n * r * 20 ≤ supply = omega (arith, div-mul-le_self (supply * 500) (n * 10_000)) in
    let high : supply < n * (r + 1) * 20 =
      omega (arith, lt-mul-div-succ (supply * 500) {b = n * 10_000} (omega (arith, z))) in
    let fits : r < 2 ^ 64 = omega (arith, low, small, le_mul n r z) in
    (r, ground (arith, z, d, fits), low, high)

-- Where an epoch takes time but no more than a year, and the supply is a uint64, the issuance of an
-- epoch is defined: it is a twentieth of the supply of that moment, divided by the epochs that a
-- year has, and rounded down once.
pub per_epoch_issuance_floor :
    (supply block_time blocks : ℕ)
    → 0 < block_time * blocks
    → block_time * blocks ≤ 31_536_000
    → supply < 2 ^ 64
    → (i : ℕ) × (n : ℕ) × (per_epoch_issuance supply block_time blocks ≡ ok i)
      × (epochs_per_year block_time blocks ≡ ok n)
      × (n ≡ 31_536_000 / (block_time * blocks))
      × (n * i * 20 ≤ supply)
      × (supply < n * (i + 1) * 20)
unfolding per_epoch_issuance epochs_per_year
per_epoch_issuance_floor supply block_time blocks h0 h small =
    let seconds = block_time * blocks in
    let n = 31_536_000 / seconds in
    let whole : wrap64 (block_time * blocks) ≡ block_time * blocks = omega (arith, h) in
    let years : epochs_per_year block_time blocks ≡ ok n = ground (arith, h0, whole) in
    let positive : 0 < n = (le-div_iff_mul-le h0).1 (omega (arith, h)) in
    let (i, e, low, high) =
      issuance_of_floor supply n positive (div-le_self 31_536_000 seconds) small in
    (i, n, ground (arith, years, e), years, refl, low, high)

read-write :
    (k j : Key) (v : ℕ) (s : State)
    → v < 2 ^ 64
    → read_uint64 j (write_uint64 k v s).1 ≡ (if key_eq.beq k j then v else read_uint64 j s)
unfolding read_uint64 write_uint64 set_bytes get_bytes
read-write k j v s h = ground (
  arith,
  lookup-insert k j (put_be 8 v) s.kvstore,
  length-put_be 8 v,
  ap be_value (take-whole 8 (put_be 8 v) (length-put_be 8 v)),
  be_value-put_be 8 v h,
)

-- What crediting the treasury does.
record IsCredited (amount : ℕ) (s t : State) : Type 0 where
  total_eq : total t.accounts ≡ total s.accounts + amount
  held : holds treasury_address t.accounts ≡ holds treasury_address s.accounts + amount
  reads :
      (k : Key)
      → read_uint64 k t
        ≡ (if key_eq.beq key_treasury_supply k then read_uint64 k s + amount else read_uint64 k s)

read-kept : (k : Key) (s t : State) → t.kvstore ≡ s.kvstore → read_uint64 k t ≡ read_uint64 k s
unfolding read_uint64 get_bytes
read-kept k s t h = rw h refl

-- A counter that does not wrap.
add-counter :
    (j k : Key) (f : Key → ℕ) (a : ℕ)
    → f j + a < 2 ^ 64
    → (if key_eq.beq j k then wrap64 (f j + a) else f k) ≡ (if key_eq.beq j k then f k + a else f k)
add-counter j k f a h = elim (Bool-cases (key_eq.beq j k)) [
  | inl q ↦ ground (arith, q, h, ap f ((key_eq.beq_iff j k).0 q))
  | inr q ↦ ground (arith, q)
]

credit_treasury-credits :
    (amount : ℕ) (s : State)
    → IsUnique s.accounts
    → holds treasury_address s.accounts + amount < 2 ^ 128
    → read_uint64 key_treasury_supply s + amount < 2 ^ 64
    → (t : State) × (credit_treasury amount s ≡ (ok tt, t)) × IsCredited amount s t
unfolding credit_treasury
credit_treasury-credits amount s u h fits = elim (Bool-cases (amount == 0)) [
  | inl z ↦ (
    s,
    ground (arith, z),
    record {
      total_eq = ground (arith, z);
      held = ground (arith, z);
      reads = λ k. ground (arith, z);
    },
  )
  | inr z ↦
      let supply = wrap64 (read_uint64 key_treasury_supply s + amount) in
      let s' = (write_uint64 key_treasury_supply supply s).1 in
      let (t, done, p) = pay_lem treasury_address amount s' h u in
      (
        t,
        ground (arith, z, done),
        record {
          total_eq = p.total_eq;
          held = p.holds_eq treasury_address;
          reads = λ k.
              read-kept k s' t p.kept
              ∙ read-write key_treasury_supply k supply s (omega arith)
              ∙ add-counter key_treasury_supply k (λ j. read_uint64 j s) amount fits;
        },
      )
]

-- What an epoch's issuance has done.
pub record IsIssued (epoch issuance : ℕ) (s t : State) : Type 0 where
  pub total_eq : total t.accounts ≡ total s.accounts + issuance * 10 / 100
  pub treasury :
      holds treasury_address t.accounts ≡ holds treasury_address s.accounts + issuance * 10 / 100
  pub treasury_supply :
      read_uint64 key_treasury_supply t ≡ read_uint64 key_treasury_supply s + issuance * 10 / 100
  pub total_supply : read_uint64 key_total_supply t ≡ read_uint64 key_total_supply s + issuance
  pub issued_supply : read_uint64 key_issued_supply t ≡ read_uint64 key_issued_supply s + issuance
  pub pool : read_uint64 (key_epoch_validator_pool epoch) t ≡ issuance * 90 / 100
  pub shares :
      (issuance * 10 / 100 + issuance * 90 / 100 ≤ issuance)
      × (issuance ≤ issuance * 10 / 100 + issuance * 90 / 100 + 1)

-- What IssueEpochTokens supposes of the state: the counters and the treasury stay in range.
pub record CanIssue (issuance : ℕ) (s : State) : Type 0 where
  pub unique : IsUnique s.accounts
  pub product_fits : issuance * 90 < 2 ^ 64
  pub treasury_fits : holds treasury_address s.accounts + issuance < 2 ^ 128
  pub treasury_supply_fits : read_uint64 key_treasury_supply s + issuance < 2 ^ 64
  pub total_fits : read_uint64 key_total_supply s + issuance < 2 ^ 64
  pub issued_fits : read_uint64 key_issued_supply s + issuance < 2 ^ 64

record_issuance-reads :
    (epoch supply issuance pool : ℕ) (s : State)
    → supply + issuance < 2 ^ 64
    → read_uint64 key_issued_supply s + issuance < 2 ^ 64
    → pool < 2 ^ 64
    → (t : State) × (record_issuance epoch supply issuance pool s ≡ (ok tt, t))
      × (t.accounts ≡ s.accounts)
      × (read_uint64 key_treasury_supply t ≡ read_uint64 key_treasury_supply s)
      × (read_uint64 key_total_supply t ≡ supply + issuance)
      × (read_uint64 key_issued_supply t ≡ read_uint64 key_issued_supply s + issuance)
      × (read_uint64 (key_epoch_validator_pool epoch) t ≡ pool)
record_issuance-reads epoch supply issuance pool s h1 h2 h3 =
    let s1 = (write_uint64 key_total_supply (wrap64 (supply + issuance)) s).1 in
    let issued = wrap64 (read_uint64 key_issued_supply s1 + issuance) in
    let s2 = (write_uint64 key_issued_supply issued s1).1 in
    let s3 = (write_uint64 (key_epoch_issuance epoch) issuance s2).1 in
    let s4 = (write_uint64 (key_epoch_validator_pool epoch) pool s3).1 in
    let r1 =
      λ (k : Key). read-write key_total_supply k (wrap64 (supply + issuance)) s (omega arith) in
    let r2 = λ (k : Key). read-write key_issued_supply k issued s1 (omega arith) in
    let r3 = λ (k : Key). read-write (key_epoch_issuance epoch) k issuance s2 (omega (arith, h1)) in
    let r4 = λ (k : Key). read-write (key_epoch_validator_pool epoch) k pool s3 h3 in
    (
      s4,
      unfold record_issuance in refl,
      unfold write_uint64 set_bytes in refl,
      ground (
        arith,
        r4 key_treasury_supply,
        r3 key_treasury_supply,
        r2 key_treasury_supply,
        r1 key_treasury_supply,
      ),
      ground (
        arith,
        r4 key_total_supply,
        r3 key_total_supply,
        r2 key_total_supply,
        r1 key_total_supply,
        h1,
      ),
      ground (
        arith,
        r4 key_issued_supply,
        r3 key_issued_supply,
        r2 key_issued_supply,
        r1 key_issued_supply,
        h2,
      ),
      ground (arith, r4 (key_epoch_validator_pool epoch)),
    )

issued :
    (epoch block_time blocks issuance : ℕ) (s s' t : State)
    → per_epoch_issuance (read_uint64 key_total_supply s) block_time blocks ≡ ok issuance
    → issuance ≢ 0
    → credit_treasury (wrap64 (issuance * 10) / 100) s ≡ (ok tt, s')
    → record_issuance epoch
        (read_uint64 key_total_supply s)
        issuance
        (wrap64 (issuance * 90) / 100)
        s'
      ≡ (ok tt, t)
    → issue_epoch_tokens epoch block_time blocks s ≡ (ok issuance, t)
unfolding issue_epoch_tokens
issued epoch block_time blocks issuance s s' t e nz done done' = ground (arith, e, nz, done, done')

-- Let no address be listed twice, and let the counters, the treasury's balance and the products of
-- the split stay in range. An issuance that is not zero then succeeds: the treasury gets a tenth
-- of it, rounded down, in its balance and its counter; the total and the issued supply grow by all
-- of it; the validators' pool of the epoch is nine tenths, rounded down. The two shares add up to
-- the issuance, or to one less.
pub issue_epoch_tokens-issues :
    (epoch block_time blocks issuance : ℕ) (s : State)
    → per_epoch_issuance (read_uint64 key_total_supply s) block_time blocks ≡ ok issuance
    → issuance ≢ 0
    → CanIssue issuance s
    → (t : State) × (issue_epoch_tokens epoch block_time blocks s ≡ (ok issuance, t))
      × IsIssued epoch issuance s t
issue_epoch_tokens-issues epoch block_time blocks issuance s e nz c =
    let tenth : wrap64 (issuance * 10) / 100 ≡ issuance * 10 / 100 =
      omega (arith, c.product_fits) in
    let nine_tenths : wrap64 (issuance * 90) / 100 ≡ issuance * 90 / 100 =
      omega (arith, c.product_fits) in
    let (s', done, w) =
      credit_treasury-credits (wrap64 (issuance * 10) / 100) s c.unique
        (omega (arith, c.treasury_fits)) (omega (arith, c.treasury_supply_fits)) in
    let (t, done', acc, rt, rs, ri, rp) =
      record_issuance-reads epoch (read_uint64 key_total_supply s) issuance
        (wrap64 (issuance * 90) / 100) s' c.total_fits
        (subst⁻¹ (λ n. n + issuance < 2 ^ 64) (w.reads key_issued_supply) c.issued_fits)
        (omega arith) in
    (
      t,
      issued epoch block_time blocks issuance s s' t e nz done done',
      record {
        total_eq = ap total acc ∙ w.total_eq ∙ ap (λ n. total s.accounts + n) tenth;
        treasury =
            ap (holds treasury_address) acc
            ∙ w.held
            ∙ ap (λ n. holds treasury_address s.accounts + n) tenth;
        treasury_supply =
            rt
            ∙ w.reads key_treasury_supply
            ∙ ap (λ n. read_uint64 key_treasury_supply s + n) tenth;
        total_supply = rs;
        issued_supply = ri ∙ ap (λ n. n + issuance) (w.reads key_issued_supply);
        pool = rp ∙ nine_tenths;
        shares = (omega arith, omega arith);
      },
    )
