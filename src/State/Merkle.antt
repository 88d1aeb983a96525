-- ===== src/State/Merkle.antt =====
-- state/smt.go: the sparse Merkle tree. A path is a number below 2 ^ 256, its bit 0 the highest.
pub mod Siblings
use dsn.Prelude.{
  ℕ, zero, suc, ◌+◌, ◌-◌, ◌*◌, ◌/◌, ◌%◌, ◌^◌, [], ◌∷◌, ◌++◌, Option, none, some, ◌==◌,
  if◌then◌else◌,
}
use dsn.Prelude.Map.{Map, lookup, insert, remove, nat_eq}
use dsn.Bytes.{Bytes, put_be}
use dsn.Types.Vote.{Crypto}

abbrev pub smt_depth : ℕ
smt_depth = 256

-- The siblings and the values; the hasher is an argument of the methods.
pub record Smt : Type 0 where
  pub root : ℕ
  pub siblings : Map ℕ ℕ
  pub values : Map ℕ Bytes

abbrev pub new_smt : Smt
new_smt = record { root = 0; siblings = []; values = [] }

abbrev pub path_for_key : Crypto → Bytes → ℕ
path_for_key c key = c.sha256 key

unfoldable pub leaf_hash : Crypto → ℕ → Bytes → ℕ
leaf_hash c path value = c.sha256 (0 ∷ put_be 32 path ++ put_be 32 (c.sha256 value))

unfoldable pub internal_hash : Crypto → ℕ → ℕ → ℕ
internal_hash c left right = c.sha256 (1 ∷ put_be 32 left ++ put_be 32 right)

unfoldable pub bit_at : ℕ → ℕ → ℕ
bit_at path depth = path / 2 ^ (255 - depth) % 2

-- The bits from the depth on are zero.
unfoldable pub clear_bits_from : ℕ → ℕ → ℕ
clear_bits_from path depth = path / 2 ^ (smt_depth - depth) * 2 ^ (smt_depth - depth)

-- A missing entry reads as the zero hash.
unfoldable pub get_node : ℕ → ℕ → Smt → ℕ
unfolding clear_bits_from
get_node path depth t = elim (lookup (clear_bits_from path depth) t.siblings) [
  | none ↦ 0
  | some h ↦ h
]

unfoldable pub set_node : ℕ → ℕ → ℕ → Smt → Smt
unfolding clear_bits_from
set_node path depth hash t =
    let prefix = clear_bits_from path depth in
    record t {
      siblings = if hash == 0 then remove prefix t.siblings else insert prefix hash t.siblings;
    }

-- The path with the bit at the depth flipped.
unfoldable pub flip_bit : ℕ → ℕ → ℕ
unfolding bit_at
flip_bit path depth =
    if bit_at path depth == 0 then path + 2 ^ (255 - depth) else path - 2 ^ (255 - depth)

unfoldable pub sibling_at : ℕ → ℕ → Smt → ℕ
unfolding flip_bit get_node
sibling_at path depth t = get_node (flip_bit path depth) depth t

-- One round of the loop: the parent's hash at a depth, from the node's below it.
unfoldable pub parent_hash : Crypto → ℕ → ℕ → ℕ → Smt → ℕ
unfolding bit_at sibling_at internal_hash
parent_hash c path depth current t =
    if bit_at path depth == 0
    then internal_hash c current (sibling_at path depth t)
    else internal_hash c (sibling_at path depth t) current

-- The loop, with as many rounds left as the depth of the current node.
unfoldable pub recompute_from : Crypto → ℕ → ℕ → ℕ → Smt → Smt
unfolding parent_hash set_node
recompute_from c path zero current t = record t { root = current }
recompute_from c path (suc depth) current t =
    let parent = parent_hash c path depth current t in
    recompute_from c path depth parent (set_node path depth parent t)

unfoldable pub recompute_up : Crypto → ℕ → Smt → Smt
unfolding recompute_from get_node
recompute_up c path t = recompute_from c path smt_depth (get_node path smt_depth t) t

unfoldable pub insert_key : Crypto → Bytes → Bytes → Smt → Smt
unfolding set_node leaf_hash recompute_up
insert_key c key value t =
    let path = path_for_key c key in
    recompute_up c path (
      set_node path smt_depth (leaf_hash c path value)
        (record t { values = insert path value t.values }))

unfoldable pub get_key : Crypto → Bytes → Smt → Option Bytes
get_key c key t = lookup (path_for_key c key) t.values

unfoldable pub delete_key : Crypto → Bytes → Smt → Smt
unfolding recompute_up
delete_key c key t =
    let path = path_for_key c key in
    recompute_up c path
      (record t { values = remove path t.values; siblings = remove path t.siblings })
