-- ===== src/Prelude/Map.antt =====
-- A Go map as an association list without repeated writes: what a later write shadows is dropped.
-- Keys are compared by an instance, so that one map serves addresses, hashes and store keys.
use mathlib.Core.Path.{◌≡◌, refl, ap}
use mathlib.Core.Logic.{◌↔◌, inl, inr}
use mathlib.Core.Bool.{Bool, true, false}
use mathlib.Core.Option.{Option, none, some}
use mathlib.Core.List.{List, [], ◌∷◌}
use native.Mathlib.Omega.{arith}
use Prim.Native.Nat.{ℕ, ◌≤◌}
use dsn.Prelude.Tests.{◌==◌ as nat_beq, ==_iff, if◌then◌else◌, Bool-cases}
use dsn.Prelude.Lists.{All, length}
use dsn.Prelude.Sort.{IsPairwise}

pub record Eq {ℓ} (A : Type ℓ) : Type ℓ where
  pub beq : A → A → Bool
  pub beq_iff : (j k : A) → (beq j k ≡ true) ↔ (j ≡ k)

instance abbrev pub nat_eq : Eq ℕ
nat_eq = record { beq = nat_beq; beq_iff = ==_iff }

abbrev pub Map {ℓ κ} : Type ℓ → Type κ → Type (ℓ ⊔ κ)
Map K V = List (K × V)

module _ {ℓ κ} {K : Type ℓ} {V : Type κ} ⦃e : Eq K⦄ where
  -- m[k], with the flag that Go's second result gives.
  unfoldable pub lookup : K → Map K V → Option V
  lookup k [] = none
  lookup k ((j, v) ∷ m) = if e.beq j k then some v else lookup k m

  -- delete(m, k)
  unfoldable pub remove : K → Map K V → Map K V
  remove k [] = []
  remove k ((j, v) ∷ m) = let rest = remove k m in if e.beq j k then rest else (j, v) ∷ rest

  -- m[k] = v
  unfoldable pub insert : K → V → Map K V → Map K V
  insert k v m = (k, v) ∷ remove k m

  pub lookup-remove :
      (k j : K) (m : Map K V) → lookup j (remove k m) ≡ (if e.beq k j then none else lookup j m)
  unfolding lookup remove
  lookup-remove k j [] = ground arith
  lookup-remove k j ((i, v) ∷ m) =
      ground (arith, lookup-remove k j m, e.beq_iff i k, e.beq_iff i j, e.beq_iff k j)

  pub lookup-insert :
      (k j : K) (v : V) (m : Map K V)
      → lookup j (insert k v m) ≡ (if e.beq k j then some v else lookup j m)
  unfolding lookup insert
  lookup-insert k j v m = ground (arith, lookup-remove k j m)

  pub lookup-empty : (k : K) → lookup k [] ≡ none
  unfolding lookup
  lookup-empty k = refl

-- A key that is absent differs from every key, and a write of it adds an entry.
module _ {ℓ κ} {K : Type ℓ} {V : Type κ} ⦃e : Eq K⦄ where
  pub lookup-absent : (k : K) (m : Map K V) → lookup k m ≡ none → All (λ p. e.beq p.0 k ≡ false) m
  unfolding lookup
  lookup-absent k [] h = tt
  lookup-absent k ((j, v) ∷ m) h = elim (Bool-cases (e.beq j k)) [
    | inl q ↦ ground (arith, h, q)
    | inr q ↦ (q, lookup-absent k m (ground (arith, h, q)))
  ]

  remove-absent : (k : K) (m : Map K V) → lookup k m ≡ none → remove k m ≡ m
  unfolding lookup remove
  remove-absent k [] h = refl
  remove-absent k ((j, v) ∷ m) h = elim (Bool-cases (e.beq j k)) [
    | inl q ↦ ground (arith, h, q)
    | inr q ↦ ground (arith, h, q, remove-absent k m (ground (arith, h, q)))
  ]

  pub insert-absent : (k : K) (v : V) (m : Map K V) → lookup k m ≡ none → insert k v m ≡ (k, v) ∷ m
  unfolding insert
  insert-absent k v m h = ap (λ r. (k, v) ∷ r) (remove-absent k m h)

-- A write of an absent key, taken back.
pub remove-insert {ℓ κ} :
    {K : Type ℓ} {V : Type κ} ⦃e : Eq K⦄ (k : K) (v : V) (m : Map K V)
    → lookup k m ≡ none
    → remove k (insert k v m) ≡ m
unfolding insert remove
remove-insert ⦃e = e⦄ k v m h =
    ground (arith, (e.beq_iff k k).1 refl, remove-absent k m h, ap (remove k) (remove-absent k m h))

-- No key occurs twice.
abbrev pub IsKeyed {ℓ κ} : {K : Type ℓ} {V : Type κ} ⦃e : Eq K⦄ → Map K V → Type 0
IsKeyed ⦃e = e⦄ = IsPairwise (λ p q. e.beq p.0 q.0 ≡ false)

module _ {ℓ κ} {K : Type ℓ} {V : Type κ} ⦃e : Eq K⦄ where
  All-remove {μ} : (P : K × V → Type μ) (k : K) (m : Map K V) → All P m → All P (remove k m)
  unfolding remove
  All-remove P k [] h = tt
  All-remove P k ((j, v) ∷ m) (h, hs) = elim (Bool-cases (e.beq j k)) [
    | inl q ↦ rw q (All-remove P k m hs)
    | inr q ↦ rw q (h, All-remove P k m hs)
  ]

  pub remove-IsKeyed : (k : K) (m : Map K V) → IsKeyed m → IsKeyed (remove k m)
  unfolding remove
  remove-IsKeyed k [] h = tt
  remove-IsKeyed k ((j, v) ∷ m) (h, hs) = elim (Bool-cases (e.beq j k)) [
    | inl q ↦ rw q (remove-IsKeyed k m hs)
    | inr q ↦ rw q (All-remove (λ p. e.beq j p.0 ≡ false) k m h, remove-IsKeyed k m hs)
  ]

pub length-remove_le {ℓ κ} :
    {K : Type ℓ} {V : Type κ} ⦃e : Eq K⦄ (k : K) (m : Map K V) → length (remove k m) ≤ length m
unfolding remove
length-remove_le k [] = omega arith
length-remove_le k ((j, v) ∷ m) = ground (arith, length-remove_le k m)

pub ruleset map_laws = (lookup-remove, lookup-insert, lookup-empty)
