-- ===== src/Tests/Roots.antt =====
-- The root of two states that list the same two accounts and entries in two orders.
use dsn.Prelude.{ℕ, ◌≡◌, refl, [], ◌∷◌, arith}
use dsn.Prelude.Map.{lookup, nat_eq}
use dsn.Bytes.{Bytes}
use dsn.State.Key.{Key, key_eq, validator_key, validator_by_seq_key}
use dsn.State.Memory.{State}
use dsn.State.Commit.{commit}
use dsn.State.Commit.Determined.{commit_determined}
use dsn.Tests.Accounts.{account}
use dsn.Tests.Certificates.{summing}

abbrev render : Key → Bytes
render k = k.space ∷ k.index ∷ []

abbrev listed : State
listed = record {
  accounts = (3, account 3 500 0) ∷ (4, account 4 20 7) ∷ [];
  kvstore = (validator_key 9, 1 ∷ []) ∷ (validator_by_seq_key 2, 6 ∷ []) ∷ [];
  snapshots = [];
}

abbrev reversed : State
reversed = record {
  accounts = (4, account 4 20 7) ∷ (3, account 3 500 0) ∷ [];
  kvstore = (validator_by_seq_key 2, 6 ∷ []) ∷ (validator_key 9, 1 ∷ []) ∷ [];
  snapshots = [];
}

render_injective : (j k : Key) → render j ≡ render k → j ≡ k
render_injective j k = ground arith

same_accounts : (addr : ℕ) → lookup addr listed.accounts ≡ lookup addr reversed.accounts
unfolding lookup
same_accounts addr = ground arith

same_entries : (k : Key) → lookup k listed.kvstore ≡ lookup k reversed.kvstore
unfolding lookup
same_entries k = ground arith

commit_determined_example : commit summing render listed ≡ commit summing render reversed
commit_determined_example =
    commit_determined summing render listed reversed render_injective ((refl, tt), (tt, tt))
      ((refl, tt), (tt, tt)) ((refl, tt), (tt, tt)) ((refl, tt), (tt, tt)) same_accounts
      same_entries
