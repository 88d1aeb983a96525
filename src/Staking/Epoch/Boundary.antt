-- ===== src/Staking/Epoch/Boundary.antt =====
-- The arithmetic of epochs and heights.
use dsn.Prelude.{ℕ, zero, suc, ◌+◌, ◌/◌, ◌%◌, ◌<◌, ◌≡◌, ◌↔◌, ◌⊎◌, inl, inr, arith, true}
use native.Mathlib.Nat.{mod-lt, div-add-mod, div-eq_of_lt-le}
use dsn.Staking.Epoch.{epoch_of, is_boundary}

-- Division by a positive number either stays and leaves a remainder, or goes up by one and
-- leaves none.
div-step :
    (n b : ℕ)
    → 0 < b
    → ((n + 1) % b ≡ 0 × (n + 1) / b ≡ n / b + 1) ⊎ (0 < (n + 1) % b × (n + 1) / b ≡ n / b)
div-step n b hb = elim (step (mod-lt n hb)) [
  | inl h ↦
      let eq : (n + 1) / b ≡ n / b + 1 =
        div-eq_of_lt-le b (grind (arith, div-add-mod n b)) (grind (arith, div-add-mod n b)) in
      inl (grind (arith, div-add-mod n b, div-add-mod (n + 1) b, eq), eq)
  | inr h ↦
      let eq : (n + 1) / b ≡ n / b =
        div-eq_of_lt-le b (grind (arith, div-add-mod n b)) (grind (arith, div-add-mod n b)) in
      inr (grind (arith, div-add-mod n b, div-add-mod (n + 1) b, eq), eq)
]
  where
    step : n % b < b → (n % b + 1 ≡ b) ⊎ (n % b + 1 < b)
    step _ = ground arith

-- With at least one block per epoch, a block of a height above 0 ends an epoch exactly when the
-- next block is of the next epoch.
pub is_boundary_iff :
    (bpe height : ℕ)
    → 0 < bpe
    → 0 < height
    → (is_boundary bpe height ≡ true) ↔ (epoch_of bpe (height + 1) ≡ epoch_of bpe height + 1)
unfolding is_boundary epoch_of
is_boundary_iff bpe zero hb hh = ground arith
is_boundary_iff bpe (suc n) hb hh = elim (div-step n bpe hb) [
  | inl h ↦ ground (arith, h.0, h.1)
  | inr h ↦ ground (arith, h.0, h.1)
]
