-- ===== src/State/Merkle/Siblings.antt =====
-- state/smt.go: which nodes the hashes of the tree are computed from.
use dsn.Prelude.{
  ℕ, zero, suc, ◌+◌, ◌-◌, ◌*◌, ◌/◌, ◌%◌, ◌^◌, ◌≤◌, ◌<◌, ◌≡◌, ◌≢◌, refl, arith, ◌==◌, ltb,
  if◌then◌else◌, false, Bool-cases, inl, inr, ap, sym, none, some,
}
use native.Mathlib.Nat.{pow-suc, div-div-eq-div-mul, add-div_right, div-eq-sub-div, div-eq_of_lt}
use dsn.Prelude.Map.{lookup, nat_eq}
use dsn.State.Merkle.{Smt, bit_at, clear_bits_from, get_node, flip_bit, sibling_at}

pow_pos : (k : ℕ) → 0 < 2 ^ k
pow_pos zero = ground arith
pow_pos (suc k) = omega (arith, pow-suc 2 k, pow_pos k)

-- A number without its lowest bits, where the one above them changes.
flip_up : (m path : ℕ) → 0 < m → path / m % 2 ≡ 0 → (path + m) / (m * 2) ≡ path / (m * 2)
flip_up m path h even =
    let a = div-div-eq-div-mul (path + m) m 2 in
    let b = div-div-eq-div-mul path m 2 in
    let c = add-div_right path h in omega (arith, a, b, c, even)

at_least : (m path : ℕ) → path / m % 2 ≢ 0 → m ≤ path
at_least m path odd = elim (Bool-cases (ltb path m)) [
  | inl q ↦
      (let small : path < m = ground (arith, q) in absurd (odd (rw (div-eq_of_lt small) refl)))
  | inr q ↦ ground (arith, q)
]

flip_down : (m path : ℕ) → 0 < m → path / m % 2 ≢ 0 → (path - m) / (m * 2) ≡ path / (m * 2)
flip_down m path h odd =
    let large : m ≤ path = at_least m path odd in
    let a = div-div-eq-div-mul (path - m) m 2 in
    let b = div-div-eq-div-mul path m 2 in
    let c = div-eq-sub-div h large in omega (arith, a, b, c, odd)

-- For a depth of the tree, flipping the bit there and clearing from there on is clearing alone.
clear_bits_from-flip_bit :
    (path depth : ℕ)
    → depth < 256
    → clear_bits_from (flip_bit path depth) depth ≡ clear_bits_from path depth
unfolding clear_bits_from flip_bit bit_at
clear_bits_from-flip_bit path depth h =
    let m = 2 ^ (255 - depth) in
    let n : 256 - depth ≡ suc (255 - depth) = omega (arith, h) in
    let step = pow-suc 2 (255 - depth) in
    let pos = pow_pos (255 - depth) in
    rw n (
      rw step (elim (Bool-cases (path / m % 2 == 0)) [
        | inl q ↦ rw q (ap (λ x. x * (m * 2)) (flip_up m path pos (ground (arith, q))))
        | inr q ↦ rw q (ap (λ x. x * (m * 2)) (flip_down m path pos (ground (arith, q))))
      ]))

-- Where the bit at a depth is 0, clearing from there on and from the next depth on is the same.
clear_bits_from-next :
    (path depth : ℕ)
    → depth < 256
    → bit_at path depth ≡ 0
    → clear_bits_from path (suc depth) ≡ clear_bits_from path depth
unfolding clear_bits_from bit_at
clear_bits_from-next path depth h zero_bit =
    let m = 2 ^ (255 - depth) in
    let n : 256 - depth ≡ suc (255 - depth) = omega (arith, h) in
    let n' : 256 - suc depth ≡ 255 - depth = omega (arith, h) in
    let step = pow-suc 2 (255 - depth) in
    let a = div-div-eq-div-mul path m 2 in
    let halved : path / m / 2 * 2 ≡ path / m = omega (arith, zero_bit) in
    let whole = ap (λ x. x * m) halved in
    rw n' (rw n (rw step (omega (arith, a, whole, ap (λ x. x * (m * 2)) a))))

-- Flipping a bit that is 1 makes it 0.
bit_at-flip_bit : (path depth : ℕ) → bit_at path depth ≡ 1 → bit_at (flip_bit path depth) depth ≡ 0
unfolding bit_at flip_bit
bit_at-flip_bit path depth one =
    let m = 2 ^ (255 - depth) in
    let large : m ≤ path = at_least m path (λ z. ground (arith, one, z)) in
    let c = div-eq-sub-div (pow_pos (255 - depth)) large in rw one (omega (arith, c, one))

-- The entry that is stored at a prefix.
abbrev node : Smt → ℕ → ℕ
node t prefix = elim (lookup prefix t.siblings) [ none ↦ 0 | some x ↦ x ]

sibling_at-own :
    (path depth : ℕ) (t : Smt) → depth < 256 → sibling_at path depth t ≡ get_node path depth t
unfolding sibling_at get_node
sibling_at-own path depth t h = ap (node t) (clear_bits_from-flip_bit path depth h)

own_below :
    (path depth : ℕ) (t : Smt)
    → depth < 256
    → bit_at path depth ≡ 0
    → get_node path depth t ≡ get_node path (suc depth) t
unfolding get_node
own_below path depth t h zero_bit = sym (ap (node t) (clear_bits_from-next path depth h zero_bit))

sibling_below :
    (path depth : ℕ) (t : Smt)
    → depth < 256
    → bit_at path depth ≡ 1
    → sibling_at path depth t ≡ get_node (flip_bit path depth) (suc depth) t
unfolding sibling_at get_node
sibling_below path depth t h one =
    let flipped = bit_at-flip_bit path depth one in
    sym (ap (node t) (clear_bits_from-next (flip_bit path depth) depth h flipped))

bit_at-one : (path depth : ℕ) → (bit_at path depth == 0) ≡ false → bit_at path depth ≡ 1
unfolding bit_at
bit_at-one path depth h = ground (arith, h)

-- What siblingAt reads, at every depth of the tree: the entry of the path's own prefix at that
-- depth. Where the path's bit is 0, that is the entry of the path's own node one level below;
-- elsewhere it is the entry of the sibling one level below.
pub sibling_at-get_node :
    (path depth : ℕ) (t : Smt)
    → depth < 256
    → (sibling_at path depth t ≡ get_node path depth t)
      × (sibling_at path depth t ≡ (
          if bit_at path depth == 0
          then get_node path (suc depth) t
          else get_node (flip_bit path depth) (suc depth) t))
sibling_at-get_node path depth t h =
    let own = sibling_at-own path depth t h in
    (
      own,
      elim (Bool-cases (bit_at path depth == 0)) [
        | inl q ↦ ground (arith, q, own, own_below path depth t h (ground (arith, q)))
        | inr q ↦ ground (arith, q, sibling_below path depth t h (bit_at-one path depth q))
      ],
    )
