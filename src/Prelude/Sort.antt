-- ===== src/Prelude/Sort.antt =====
-- sort.Slice, a sort of Go's library, as an insertion sort. sort.Slice is not stable, so it gives
-- the same list only where the order leaves no two elements of the slice tied.
use Prim.Native.Nat.{ℕ, ◌+◌}
use mathlib.Core.Path.{◌≡◌, refl}
use mathlib.Core.Logic.{inl, inr}
use mathlib.Core.Bool.{Bool, true, false}
use mathlib.Core.List.{List, [], ◌∷◌}
use native.Mathlib.Omega.{arith}
use dsn.Prelude.Tests.{if◌then◌else◌, Bool-cases}
use dsn.Prelude.Lists.{All}

module _ {ℓ} {A : Type ℓ} where
  -- A relation between every element and each one behind it.
  abbrev pub IsPairwise {κ} : (A → A → Type κ) → List A → Type κ
  IsPairwise R [] = Unit {κ}
  IsPairwise R (x ∷ xs) = All (R x) xs × IsPairwise R xs

  abbrev pub total : (A → ℕ) → List A → ℕ
  total f [] = 0
  total f (x ∷ xs) = f x + total f xs

  pub All-mono {κ μ} :
      {P : A → Type κ} {Q : A → Type μ} (xs : List A) → ((x : A) → P x → Q x) → All P xs → All Q xs
  All-mono [] f h = tt
  All-mono (x ∷ xs) f (h, hs) = (f x h, All-mono xs f hs)

module _ {ℓ} {A : Type ℓ} (before : A → A → Bool) where
  unfoldable pub place : A → List A → List A
  place v [] = v ∷ []
  place v (w ∷ ws) = let rest = place v ws in if before w v then w ∷ rest else v ∷ w ∷ ws

  unfoldable pub sort : List A → List A
  unfolding place
  sort [] = []
  sort (v ∷ vs) = place v (sort vs)

  -- No element of the tail comes before the head.
  abbrev pub IsOrdered : List A → Type 0
  IsOrdered = IsPairwise (λ v w. before w v ≡ false)

  All-place {κ} : (P : A → Type κ) (v : A) (vs : List A) → P v → All P vs → All P (place v vs)
  unfolding place
  All-place P v [] p h = (p, tt)
  All-place P v (w ∷ ws) p (h, hs) = elim (Bool-cases (before w v)) [
    | inl e ↦ rw e (h, All-place P v ws p hs)
    | inr e ↦ rw e (p, (h, hs))
  ]

  pub All-sort {κ} : (P : A → Type κ) (vs : List A) → All P vs → All P (sort vs)
  unfolding sort
  All-sort P [] h = tt
  All-sort P (v ∷ vs) (h, hs) = All-place P v (sort vs) h (All-sort P vs hs)

  place-IsPairwise {κ} :
      (R : A → A → Type κ) (v : A) (vs : List A)
      → ((x y : A) → R x y → R y x)
      → All (R v) vs
      → IsPairwise R vs
      → IsPairwise R (place v vs)
  unfolding place
  place-IsPairwise R v [] flip a h = (tt, tt)
  place-IsPairwise R v (w ∷ ws) flip (a, more) (h, hs) = elim (Bool-cases (before w v)) [
    | inl e ↦ rw e (All-place (R w) v ws (flip v w a) h, place-IsPairwise R v ws flip more hs)
    | inr e ↦ rw e ((a, more), (h, hs))
  ]

  -- A symmetric relation between all elements is kept.
  pub sort-IsPairwise {κ} :
      (R : A → A → Type κ) (vs : List A)
      → ((x y : A) → R x y → R y x)
      → IsPairwise R vs
      → IsPairwise R (sort vs)
  unfolding sort
  sort-IsPairwise R [] flip h = tt
  sort-IsPairwise R (v ∷ vs) flip (h, hs) =
      place-IsPairwise R v (sort vs) flip (All-sort (R v) vs h) (sort-IsPairwise R vs flip hs)

  total-place : (f : A → ℕ) (v : A) (vs : List A) → total f (place v vs) ≡ f v + total f vs
  unfolding place
  total-place f v [] = refl
  total-place f v (w ∷ ws) = elim (Bool-cases (before w v)) [
    | inl e ↦ rw e (omega (arith, total-place f v ws))
    | inr e ↦ rw e refl
  ]

  pub total-sort : (f : A → ℕ) (vs : List A) → total f (sort vs) ≡ total f vs
  unfolding sort
  total-sort f [] = refl
  total-sort f (v ∷ vs) = omega (arith, total-place f v (sort vs), total-sort f vs)

  -- An order: what does not come before is transitive, and what comes before does not follow.
  module _ (trans : (u v w : A) → before v u ≡ false → before w v ≡ false → before w u ≡ false)
      (asym : (v w : A) → before w v ≡ true → before v w ≡ false) where
    place-IsOrdered : (v : A) (vs : List A) → IsOrdered vs → IsOrdered (place v vs)
    unfolding place
    place-IsOrdered v [] h = (tt, tt)
    place-IsOrdered v (w ∷ ws) (h, hs) = elim (Bool-cases (before w v)) [
      | inl e ↦
          rw e (All-place (λ x. before x w ≡ false) v ws (asym v w e) h, place-IsOrdered v ws hs)
      | inr e ↦ rw e ((e, All-mono ws (λ x k. trans v w x e k) h), (h, hs))
    ]

    pub sort-IsOrdered : (vs : List A) → IsOrdered (sort vs)
    unfolding sort
    sort-IsOrdered [] = tt
    sort-IsOrdered (v ∷ vs) = place-IsOrdered v (sort vs) (sort-IsOrdered vs)
