-- ===== src/State/Keeps.antt =====
-- Which actions leave an entry of the key-value store as it was.
use dsn.Prelude.{
  ℕ, ◌≡◌, refl, sym, ◌∙◌, ap, Bool, true, false, if◌then◌else◌, arith, inl, inr, Option-cases,
}
use dsn.Prelude.Map.{lookup, insert, nat_eq, lookup-insert}
use dsn.Error.{Result, ok, Result-cases}
use dsn.Exec.{◌>>=◌, >>=-eq_ok, pure, lift, gets, modify}
use dsn.Bytes.{Bytes}
use dsn.Types.Amount.{Amount}
use dsn.State.Key.{Key, key_eq}
use dsn.State.Account.{Account, add_balance}
use dsn.State.Memory.{
  State, Action, Ref, stored, fresh, get_account, load, update, credit, set_account, get_bytes,
  set_bytes,
}
use dsn.State.Payload.{counter}
use dsn.State.Payment.{pay}
use dsn.State.Transitions.{get_or_new}

-- An action that succeeds leaves the entry under a key as it was.
abbrev pub Keeps {ℓ} : {A : Type ℓ} → Key → Action A → Type ℓ
Keeps {A = A} k m = (s t : State) (a : A) → m s ≡ (ok a, t) → get_bytes k t ≡ get_bytes k s

module _ {ℓ} {A : Type ℓ} (k : Key) where
  -- An action that never changes the store.
  pub Keeps-same : (m : Action A) → ((s : State) → (m s).1.kvstore ≡ s.kvstore) → Keeps k m
  unfolding get_bytes
  Keeps-same m h s t a e =
      ap (λ (r : Result A × State). lookup k r.1.kvstore) (sym e) ∙ ap (lookup k) (h s)

  pub Keeps-pure : (a : A) → Keeps k (pure a)
  Keeps-pure a = Keeps-same (pure a) (λ s. refl)

  pub Keeps-lift : (r : Result A) → Keeps k (lift r)
  Keeps-lift r = Keeps-same (lift r) (λ s. refl)

  pub Keeps-gets : (f : State → A) → Keeps k (gets f)
  Keeps-gets f = Keeps-same (gets f) (λ s. refl)

  pub Keeps-if : (b : Bool) (m n : Action A) → Keeps k m → Keeps k n → Keeps k (if b then m else n)
  Keeps-if true m n h h' = h
  Keeps-if false m n h h' = h'

pub Keeps-bind {ℓ κ} :
    {A : Type ℓ} {B : Type κ} (k : Key) (m : Action A) (f : A → Action B)
    → Keeps k m
    → ((a : A) → Keeps k (f a))
    → Keeps k (m >>= f)
Keeps-bind k m f hm hf s t b e =
    let (a, s', e1, e2) = >>=-eq_ok m f s t b e in hf a s' t b e2 ∙ hm s s' a e1

pub Keeps-set_bytes : (k j : Key) (v : Bytes) → key_eq.beq j k ≡ false → Keeps k (set_bytes j v)
unfolding set_bytes get_bytes
Keeps-set_bytes k j v h s t a e = ground (arith, e, h, lookup-insert j k v s.kvstore)

pub counter-state : (k : Key) (d : ℕ) (s : State) → (counter k d s).1 ≡ s
unfolding counter
counter-state k d s = elim (Option-cases (get_bytes k s)) [
  | inl q ↦ ground (arith, q)
  | inr (bs, q) ↦ ground (arith, q)
]

pub Keeps-counter : (k j : Key) (d : ℕ) → Keeps k (counter j d)
Keeps-counter k j d =
    Keeps-same k (counter j d) (λ s. ap (λ (t : State). t.kvstore) (counter-state j d s))

load-state : (r : Ref) (s : State) → (load r s).1 ≡ s
unfolding load
load-state (fresh a) s = refl
load-state (stored addr) s = elim (Option-cases (lookup addr s.accounts)) [
  | inl q ↦ ground (arith, q)
  | inr (a, q) ↦ ground (arith, q)
]

Keeps-load : (k : Key) (r : Ref) → Keeps k (load r)
Keeps-load k r = Keeps-same k (load r) (λ s. ap (λ (t : State). t.kvstore) (load-state r s))

Keeps-update : (k : Key) (r : Ref) (a : Account) → Keeps k (update r a)
unfolding update
Keeps-update k (fresh b) a = Keeps-same k (update (fresh b) a) (λ s. refl)
Keeps-update k (stored addr) a = Keeps-same k (update (stored addr) a) (λ s. refl)

Keeps-credit : (k : Key) (r : Ref) (amount : Amount) → Keeps k (credit r amount)
unfolding credit
Keeps-credit k r amount =
    Keeps-bind k (load r) (λ a. lift (add_balance amount a) >>= λ b. update r b) (Keeps-load k r)
      (λ a.
        Keeps-bind k (lift (add_balance amount a)) (update r) (Keeps-lift k (add_balance amount a))
          (Keeps-update k r))

Keeps-set_account : (k : Key) (addr : ℕ) (r : Ref) → Keeps k (set_account addr r)
unfolding set_account
Keeps-set_account k addr r =
    Keeps-bind k (load r) (λ a. modify (λ s. record s { accounts = insert addr a s.accounts }))
      (Keeps-load k r)
      (λ a.
        Keeps-same k (modify (λ s. record s { accounts = insert addr a s.accounts })) (λ s. refl))

got-state : (addr : ℕ) (s : State) → (get_or_new addr s).1 ≡ s
unfolding get_or_new
got-state addr s = elim (Result-cases (get_account addr s).0) [
  | inl (r, q) ↦ ground (arith, q)
  | inr (e, q) ↦ ground (arith, q)
]

pub Keeps-pay : (k : Key) (addr : ℕ) (amount : Amount) → Keeps k (pay addr amount)
unfolding pay
Keeps-pay k addr amount =
    Keeps-bind k (get_or_new addr) (λ acc. credit acc amount >>= set_account addr)
      (Keeps-same k (get_or_new addr) (λ s. ap (λ (t : State). t.kvstore) (got-state addr s)))
      (λ acc.
        Keeps-bind k (credit acc amount) (set_account addr) (Keeps-credit k acc amount)
          (Keeps-set_account k addr))
