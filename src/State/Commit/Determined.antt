-- ===== src/State/Commit/Determined.antt =====
-- state/memory.go: the root that Commit gives and the order in which Go iterates the maps.
use dsn.Prelude.{ℕ, ◌≡◌, refl, [], ◌∷◌, true, false, ltb, ◌==◌, ==_iff, Bool-cases, inl, inr, arith}
use dsn.Prelude.Map.{lookup, IsKeyed, nat_eq}
use dsn.Prelude.Entries.{IsOrder, sort-same}
use dsn.Bytes.{Bytes}
use dsn.Types.Vote.{Crypto}
use dsn.State.Key.{Key, key_eq}
use dsn.State.Memory.{State}
use dsn.State.Commit.{string_before, key_before, build_tree, commit}

ltb-IsOrder : IsOrder ℕ ltb
ltb-IsOrder = record {
  trans = λ u v w. ground arith;
  asym = λ v w. ground arith;
  connected = λ v w. ground arith;
}

string_before_trans :
    (u v w : Bytes)
    → string_before v u ≡ false
    → string_before w v ≡ false
    → string_before w u ≡ false
unfolding string_before
string_before_trans [] v w h k = refl
string_before_trans (x ∷ u) [] w h k = ground arith
string_before_trans (x ∷ u) (y ∷ v) [] h k = ground arith
string_before_trans (x ∷ u) (y ∷ v) (z ∷ w) h k = ground (arith, string_before_trans u v w)

string_before_asym : (v w : Bytes) → string_before w v ≡ true → string_before v w ≡ false
unfolding string_before
string_before_asym [] w h = ground arith
string_before_asym (y ∷ v) [] h = refl
string_before_asym (y ∷ v) (z ∷ w) h = ground (arith, string_before_asym v w)

string_before_connected :
    (v w : Bytes) → string_before v w ≡ false → string_before w v ≡ false → v ≡ w
unfolding string_before
string_before_connected [] [] h k = refl
string_before_connected [] (z ∷ w) h k = ground arith
string_before_connected (y ∷ v) [] h k = ground arith
string_before_connected (y ∷ v) (z ∷ w) h k = elim (Bool-cases (y == z)) [
  | inl q ↦
      let tail = string_before_connected v w (ground (arith, h, q)) (ground (arith, k, q)) in
      let head = (==_iff y z).0 q in cc (tail, head)
  | inr q ↦ absurd (ground (arith, h, k, q))
]

key_before-IsOrder :
    (render : Key → Bytes)
    → ((j k : Key) → render j ≡ render k → j ≡ k)
    → IsOrder Key (key_before render)
key_before-IsOrder render inj = record {
  trans = λ u v w. string_before_trans (render u) (render v) (render w);
  asym = λ v w. string_before_asym (render v) (render w);
  connected = λ v w h k. inj v w (string_before_connected (render v) (render w) h k);
}

-- Let no two keys of the store have the same string, and no map list a key twice. Two states whose
-- maps hold the same accounts and the same entries, in whatever order their entries are listed,
-- are committed to the same root, or both fail with the same error.
pub commit_determined :
    (c : Crypto) (render : Key → Bytes) (s t : State)
    → ((j k : Key) → render j ≡ render k → j ≡ k)
    → IsKeyed s.accounts
    → IsKeyed t.accounts
    → IsKeyed s.kvstore
    → IsKeyed t.kvstore
    → ((addr : ℕ) → lookup addr s.accounts ≡ lookup addr t.accounts)
    → ((k : Key) → lookup k s.kvstore ≡ lookup k t.kvstore)
    → commit c render s ≡ commit c render t
unfolding commit build_tree
commit_determined c render s t inj ks kt hs ht same_accounts same_store =
    let a = sort-same ltb ltb-IsOrder s.accounts t.accounts ks kt same_accounts in
    let b =
      sort-same (key_before render) (key_before-IsOrder render inj) s.kvstore t.kvstore hs ht
        same_store in
    rw (a, build_tree) (rw (b, build_tree) refl)
