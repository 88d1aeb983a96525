-- ===== src/Consensus/Snapshot/Power.antt =====
-- The power of the validators of a set that voted.
use dsn.Prelude.{
  ℕ, ◌+◌, ◌≤◌, ◌≡◌, refl, ap, ◌⊎◌, inl, inr, List, [], ◌∷◌, none, some, Bool, true, false, ◌==◌,
  ◌&&◌, if◌then◌else◌, arith, ◌↔◌, length, Bool-cases, ==_iff,
}
use dsn.Prelude.Map.{Map, lookup, insert, nat_eq, lookup-insert, lookup-empty}
use dsn.Staking.Validator.{Validator}
use dsn.Consensus.Snapshot.{build_indexes, has_id, IsDistinct}

abbrev pub is_voter {ℓ} : {V : Type ℓ} → Map ℕ V → ℕ → Bool
is_voter votes id = elim (lookup id votes) [ none ↦ false | some _ ↦ true ]

-- The sum of a weight over those whom a test selects.
unfoldable pub weigh : (Validator → ℕ) → (ℕ → Bool) → List Validator → ℕ
weigh w p [] = 0
weigh w p (v ∷ vs) = (if p v.consensus_id then w v else 0) + weigh w p vs

-- The power of those whom a test selects, without the wrap-around of the counters.
abbrev pub power_of : (ℕ → Bool) → List Validator → ℕ
power_of = weigh (λ v. v.voting_power)

unfoldable pub full_power : List Validator → ℕ
full_power [] = 0
full_power (v ∷ vs) = v.voting_power + full_power vs

-- A vote of a validator of the set, not stored before, adds that validator's weight.
module _ {ℓ} {V : Type ℓ} (weight : Validator → ℕ) (id : ℕ) (vote : V) (votes : Map ℕ V) where
  weigh-insert_absent :
      (vs : List Validator)
      → has_id id vs ≡ false
      → weigh weight (is_voter (insert id vote votes)) vs ≡ weigh weight (is_voter votes) vs
  unfolding weigh has_id
  weigh-insert_absent [] h = refl
  weigh-insert_absent (v ∷ vs) h = ground (
    arith,
    lookup-insert id v.consensus_id vote votes,
    weigh-insert_absent vs,
    ==_iff id v.consensus_id,
    ==_iff v.consensus_id id,
  )

  -- What the index finds was there before, or is a validator of the list whose vote counts.
  indexed :
      (v : Validator) (m : Map ℕ Validator) (vs : List Validator)
      → lookup id votes ≡ none
      → lookup id (build_indexes m vs) ≡ some v
      → IsDistinct vs
      → (has_id id vs ≡ false × lookup id m ≡ some v)
        ⊎ (has_id id vs ≡ true
            × weigh weight (is_voter (insert id vote votes)) vs
              ≡ weigh weight (is_voter votes) vs + weight v)
  unfolding weigh has_id build_indexes IsDistinct
  indexed v m [] hv h d = inl (refl, h)
  indexed v m (w ∷ ws) hv h (dw, ds) = elim (indexed v (insert w.consensus_id w m) ws hv h ds) [
    | inl h' ↦ elim (Bool-cases (w.consensus_id == id)) [
      | inl e ↦ inr (
        ground (arith, e),
        same (lookup-insert w.consensus_id id w m) (==_iff w.consensus_id id) h' e,
      )
      | inr e ↦
          inl
            (ground (arith, e, h'.0), ground (arith, e, h'.1, lookup-insert w.consensus_id id w m))
    ]
    | inr h' ↦ inr (ground (arith, h'.0), other h' (lookup-insert id w.consensus_id vote votes))
  ]
    where
      same :
          lookup id (insert w.consensus_id w m)
            ≡ (if w.consensus_id == id then some w else lookup id m)
          → ((w.consensus_id == id) ≡ true) ↔ (w.consensus_id ≡ id)
          → (has_id id ws ≡ false × lookup id (insert w.consensus_id w m) ≡ some v)
          → (w.consensus_id == id) ≡ true
          → weigh weight (is_voter (insert id vote votes)) (w ∷ ws)
            ≡ weigh weight (is_voter votes) (w ∷ ws) + weight v
      same li same_id h' e =
          let wv : w ≡ v = ground (arith, li, e, h'.1) in
          let is_id : w.consensus_id ≡ id = same_id.0 e in
          ground (
            arith,
            weigh-insert_absent ws h'.0,
            lookup-insert id id vote votes,
            is_id,
            ap weight wv,
            hv,
            ==_iff id id,
          )

      other :
          (has_id id ws ≡ true
            × weigh weight (is_voter (insert id vote votes)) ws
              ≡ weigh weight (is_voter votes) ws + weight v)
          → lookup w.consensus_id (insert id vote votes)
            ≡ (if id == w.consensus_id then some vote else lookup w.consensus_id votes)
          → weigh weight (is_voter (insert id vote votes)) (w ∷ ws)
            ≡ weigh weight (is_voter votes) (w ∷ ws) + weight v
      other h' li = ground (arith, ==_iff id w.consensus_id, h'.0, h'.1, dw)

  pub weigh-insert :
      (v : Validator) (vs : List Validator)
      → lookup id votes ≡ none
      → lookup id (build_indexes [] vs) ≡ some v
      → IsDistinct vs
      → weigh weight (is_voter (insert id vote votes)) vs
        ≡ weigh weight (is_voter votes) vs + weight v
  weigh-insert v vs hv h d = elim (indexed v [] vs hv h d) [
    | inl h' ↦ ground (arith, lookup-empty {V = Validator} id, h'.1)
    | inr h' ↦ h'.1
  ]

pub weigh-none {ℓ} :
    (V : Type ℓ) (weight : Validator → ℕ) (vs : List Validator)
    → weigh weight (is_voter {V = V} []) vs ≡ 0
unfolding weigh
weigh-none V weight [] = refl
weigh-none V weight (v ∷ vs) =
    ground (arith, weigh-none V weight vs, lookup-empty {V = V} v.consensus_id)

-- Inclusion and exclusion for the power of two sets of voters.
pub power_of-overlap :
    (p q : ℕ → Bool) (vs : List Validator)
    → power_of p vs + power_of q vs ≤ full_power vs + power_of (λ id. p id && q id) vs
unfolding weigh full_power
power_of-overlap p q [] = ground arith
power_of-overlap p q (v ∷ vs) = ground (arith, power_of-overlap p q vs)

pub power_of-le : (p : ℕ → Bool) (vs : List Validator) → power_of p vs ≤ full_power vs
unfolding weigh full_power
power_of-le p [] = ground arith
power_of-le p (v ∷ vs) = ground (arith, power_of-le p vs)

pub weigh-one_le : (p : ℕ → Bool) (vs : List Validator) → weigh (λ _. 1) p vs ≤ length vs
unfolding weigh
weigh-one_le p [] = omega arith
weigh-one_le p (v ∷ vs) = ground (arith, weigh-one_le p vs)
