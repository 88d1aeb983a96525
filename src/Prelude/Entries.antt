-- ===== src/Prelude/Entries.antt =====
-- Go's maps, read in the order of their keys: the entries of a map, sorted by an order of the keys
-- without ties, do not depend on the order in which the map is iterated.
use mathlib.Core.Path.{◌≡◌, refl}
use mathlib.Core.Logic.{inl, inr}
use mathlib.Core.Bool.{Bool, true, false}
use mathlib.Core.Option.{none}
use mathlib.Core.List.{List, [], ◌∷◌}
use mathlib.Core.Path.{◌∙◌, sym, subst}
use native.Mathlib.Omega.{arith}
use dsn.Prelude.Tests.{Bool-cases}
use dsn.Prelude.Lists.{All}
use dsn.Prelude.Sort.{
  IsPairwise, All-mono, place, sort, IsOrdered, All-sort, sort-IsPairwise, sort-IsOrdered,
}
use dsn.Prelude.Map.{Eq, Map, lookup, IsKeyed}

-- What a sort needs of an order, and that it has no ties.
pub record IsOrder {ℓ} (A : Type ℓ) (before : A → A → Bool) : Type ℓ where
  pub trans : (u v w : A) → before v u ≡ false → before w v ≡ false → before w u ≡ false
  pub asym : (v w : A) → before w v ≡ true → before v w ≡ false
  pub connected : (v w : A) → before v w ≡ false → before w v ≡ false → v ≡ w

module _ {ℓ} {K : Type ℓ} where
  irreflexive : (before : K → K → Bool) → IsOrder K before → (k : K) → before k k ≡ false
  irreflexive before o k = elim (Bool-cases (before k k)) [ inl q ↦ o.asym k k q | inr q ↦ q ]

  rising_trans :
      (before : K → K → Bool)
      → IsOrder K before
      → (a b x : K) → before a b ≡ true
      → before b x ≡ true
      → before a x ≡ true
  rising_trans before o a b x p q = elim (Bool-cases (before a x)) [
    | inl r ↦ r
    | inr r ↦ absurd (ground (arith, p, o.trans b x a (o.asym x b q) r))
  ]

  same_beq : ⦃e : Eq K⦄ (k : K) → e.beq k k ≡ true
  same_beq ⦃e = e⦄ k = (e.beq_iff k k).1 refl

All-both {ℓ κ μ ν} :
    {A : Type ℓ} {P : A → Type κ} {Q : A → Type μ} {R : A → Type ν} (xs : List A)
    → ((x : A) → P x → Q x → R x)
    → All P xs
    → All Q xs
    → All R xs
All-both [] f h k = tt
All-both (x ∷ xs) f (h, hs) (k, ks) = (f x h k, All-both xs f hs ks)

-- The order of entries by their keys.
abbrev pub by_key {ℓ κ} : {K : Type ℓ} {V : Type κ} → (K → K → Bool) → K × V → K × V → Bool
by_key before a b = before a.0 b.0

module _ {ℓ κ} {K : Type ℓ} {V : Type κ} ⦃e : Eq K⦄ (before : K → K → Bool)
    (o : IsOrder K before) where
  -- Every key comes before the ones behind it.
  abbrev IsRising : Map K V → Type 0
  IsRising = IsPairwise (λ a b. (by_key before) a b ≡ true)

  absent : (k : K) (m : Map K V) → All (λ b. before k b.0 ≡ true) m → lookup k m ≡ none
  unfolding lookup
  absent k [] h = refl
  absent k ((j, v) ∷ m) (h, hs) = elim (Bool-cases (e.beq j k)) [
    | inl q ↦ absurd (ground (arith, h, (e.beq_iff j k).0 q, irreflexive before o k))
    | inr q ↦ rw q (absent k m hs)
  ]

  lookup-place :
      (j : K) (a : K × V) (m : Map K V)
      → All (λ b. e.beq a.0 b.0 ≡ false) m
      → lookup j (place (by_key before) a m) ≡ lookup j (a ∷ m)
  unfolding lookup place
  lookup-place j a [] h = refl
  lookup-place j a (b ∷ m) (h, hs) = elim (Bool-cases ((by_key before) b a)) [
    | inl q ↦
        ground
          (arith, q, h, lookup-place j a m hs, e.beq_iff a.0 j, e.beq_iff b.0 j, e.beq_iff a.0 b.0)
    | inr q ↦ rw q refl
  ]

  lookup-sort : (j : K) (m : Map K V) → IsKeyed m → lookup j (sort (by_key before) m) ≡ lookup j m
  unfolding lookup sort
  lookup-sort j [] h = refl
  lookup-sort j (a ∷ m) (h, hs) =
      lookup-place j a (sort (by_key before) m)
        (All-sort (by_key before) (λ b. e.beq a.0 b.0 ≡ false) m h)
      ∙ ground (arith, lookup-sort j m hs)

  rising : (m : Map K V) → IsKeyed m → IsOrdered (by_key before) m → IsRising m
  rising [] h k = tt
  rising (a ∷ m) (h, hs) (k, ks) = (
    All-both m (λ b p q. ground (arith, p, q, o.connected a.0 b.0, e.beq_iff a.0 b.0)) h k,
    rising m hs ks,
  )

  -- A key before the first of a list is not in it.
  absent_before :
      (k : K) (b : K × V) (n : Map K V)
      → before k b.0 ≡ true
      → All (λ x. (by_key before) b x ≡ true) n
      → lookup k (b ∷ n) ≡ none
  absent_before k b n q h =
      absent k (b ∷ n) (q, All-mono n (λ x r. rising_trans before o k b.0 x.0 q r) h)

  same_head :
      (a b : K × V) (m n : Map K V)
      → IsRising (a ∷ m)
      → IsRising (b ∷ n)
      → ((j : K) → lookup j (a ∷ m) ≡ lookup j (b ∷ n))
      → a.0 ≡ b.0
  unfolding lookup
  same_head a b m n (h, hs) (k, ks) f = elim (Bool-cases (before a.0 b.0)) [
    | inl q ↦ absurd (ground (arith, f a.0, same_beq a.0, absent_before a.0 b n q k))
    | inr q ↦ elim (Bool-cases (before b.0 a.0)) [
      | inl r ↦ absurd (ground (arith, f b.0, same_beq b.0, absent_before b.0 a m r h))
      | inr r ↦ o.connected a.0 b.0 q r
    ]
  ]

  same_tail :
      (key : K) (v w : V) (m n : Map K V)
      → IsRising ((key, v) ∷ m)
      → IsRising ((key, w) ∷ n)
      → ((j : K) → lookup j ((key, v) ∷ m) ≡ lookup j ((key, w) ∷ n))
      → (j : K) → lookup j m ≡ lookup j n
  unfolding lookup
  same_tail key v w m n (h, hs) (k, ks) f j = elim (Bool-cases (e.beq key j)) [
    | inl q ↦
        subst (λ x. lookup x m ≡ lookup x n) ((e.beq_iff key j).0 q)
          (absent key m h ∙ sym (absent key n k))
    | inr q ↦ ground (arith, q, f j)
  ]

  same_entries :
      (m n : Map K V) → IsRising m → IsRising n → ((j : K) → lookup j m ≡ lookup j n) → m ≡ n
  unfolding lookup
  same_entries [] [] h k f = refl
  same_entries [] (b ∷ n) h k f = absurd (ground (arith, f b.0, same_beq b.0))
  same_entries (a ∷ m) [] h k f = absurd (ground (arith, f a.0, same_beq a.0))
  same_entries ((i, v) ∷ m) ((j, w) ∷ n) h k f =
      subst
        (λ x.
          IsRising ((x, w) ∷ n)
          → ((y : K) → lookup y ((i, v) ∷ m) ≡ lookup y ((x, w) ∷ n))
          → (i, v) ∷ m ≡ (x, w) ∷ n)
        (same_head (i, v) (j, w) m n h k f)
        (λ k' f'.
          let value : v ≡ w = ground (arith, f' i, same_beq i) in
          let tail = same_entries m n h.1 k'.1 (same_tail i v w m n h k' f') in cc (value, tail))
        k f

  -- Two maps that hold the same are sorted to the same list.
  pub sort-same :
      (m n : Map K V)
      → IsKeyed m
      → IsKeyed n
      → ((j : K) → lookup j m ≡ lookup j n)
      → sort (by_key before) m ≡ sort (by_key before) n
  sort-same m n h k f =
      same_entries (sort (by_key before) m) (sort (by_key before) n) (sort-rising m h)
        (sort-rising n k) (λ j. lookup-sort j m h ∙ f j ∙ sym (lookup-sort j n k))
    where
      sort-rising : (l : Map K V) → IsKeyed l → IsRising (sort (by_key before) l)
      sort-rising l q =
          rising (sort (by_key before) l)
            (sort-IsPairwise (by_key before) (λ a b. e.beq a.0 b.0 ≡ false) l
              (λ a b r. ground (arith, r, e.beq_iff a.0 b.0, e.beq_iff b.0 a.0)) q)
            (sort-IsOrdered (by_key before) (λ a b c. o.trans a.0 b.0 c.0) (λ a b. o.asym a.0 b.0)
              l)
