-- ===== src/Tests/Amounts.antt =====
-- Heights, fees and gas at small numbers, and a small Merkle tree.
use dsn.Prelude.{◌+◌, ◌-◌, ◌^◌, ◌<◌, ◌≤◌, ◌≡◌, ◌↔◌, ◌==◌, if◌then◌else◌, true, refl, [], ◌∷◌, arith}
use dsn.Error.{ok}
use dsn.Staking.Epoch.{epoch_of, is_boundary}
use dsn.Staking.Epoch.Boundary.{is_boundary_iff}
use dsn.State.Merkle.{Smt, bit_at, flip_bit, get_node, sibling_at}
use dsn.State.Merkle.Siblings.{sibling_at-get_node}
use dsn.Vm.Gas.{GasMeter, deduct}
use dsn.Vm.Gas.Metered.{IsMetered, deduct_wraps}

is_boundary_iff_example :
    (is_boundary 100 200 ≡ true) ↔ (epoch_of 100 (200 + 1) ≡ epoch_of 100 200 + 1)
is_boundary_iff_example = is_boundary_iff 100 200 (omega arith) (omega arith)

abbrev meter : GasMeter
meter = record { limit = 100; used = 30 }

meter-IsMetered : IsMetered meter
meter-IsMetered = record { within = omega arith; sized = omega arith }

deduct_wraps_example :
    ((deduct (2 ^ 64 - 1) meter).0 ≡ ok tt) × ((deduct (2 ^ 64 - 1) meter).1.used < 30)
deduct_wraps_example = deduct_wraps (2 ^ 64 - 1) meter meter-IsMetered (omega arith) (omega arith)

-- A tree in which the node of the path 4 at the depths 253 and 254 is stored.
abbrev tree : Smt
tree = record { root = 9; siblings = (4, 7) ∷ []; values = [] }

reads_itself : sibling_at 4 254 tree ≡ 7
unfolding sibling_at dsn.Prelude.Map.lookup
reads_itself = refl

-- On the bit 1 of the path 5, the leaf of the path 4 is read.
reads_leaf : sibling_at 5 255 (record { root = 9; siblings = (4, 7) ∷ []; values = [] }) ≡ 7
unfolding sibling_at dsn.Prelude.Map.lookup
reads_leaf = refl

sibling_at-get_node_example :
    (sibling_at 4 254 tree ≡ get_node 4 254 tree)
    × (sibling_at 4 254 tree
        ≡ (if bit_at 4 254 == 0 then get_node 4 255 tree else get_node (flip_bit 4 254) 255 tree))
sibling_at-get_node_example = sibling_at-get_node 4 254 tree (omega arith)
