-- ===== src/Exec.antt =====
-- Methods that change a state and may return an error. What was written before the error stays
-- written, so the state comes back beside the error too.
use dsn.Prelude.{Bool, if◌then◌else◌, Option, none, some, ◌≡◌, refl, ◌∙◌, ◌⊎◌, inl, inr}
use dsn.Error.{Error, Result, ok, err}

abbrev pub Exec {ℓ κ} : Type ℓ → Type κ → Type (ℓ ⊔ κ)
Exec S A = S → Result A × S

module _ {ℓ κ} {S : Type ℓ} {A : Type κ} where
  abbrev pub pure : A → Exec S A
  pure a s = (ok a, s)

  abbrev pub raise : Error → Exec S A
  raise e s = (err e, s)

  abbrev pub lift : Result A → Exec S A
  lift r s = (r, s)

  abbrev pub gets : (S → A) → Exec S A
  gets f s = (ok (f s), s)

  -- Go's comma-ok: the value, or an error where there is none.
  abbrev pub or_raise : Option A → Error → Exec S A
  or_raise none e = raise e
  or_raise (some a) e = pure a

infixl 5 ◌>>=◌ ◌>>◌
abbrev pub ◌>>=◌ {ℓ κ μ} :
    {S : Type ℓ} {A : Type κ} {B : Type μ} → Exec S A → (A → Exec S B) → Exec S B
◌>>=◌ m f s = let (r, s') = m s in elim r [ ok a ↦ f a s' | err e ↦ (err e, s') ]

abbrev pub ◌>>◌ {ℓ κ μ} : {S : Type ℓ} {A : Type κ} {B : Type μ} → Exec S A → Exec S B → Exec S B
m >> k = m >>= λ _. k

-- `if bad { return err }`
abbrev pub raise_if {ℓ} : {S : Type ℓ} → Bool → Error → Exec S (Unit {0})
raise_if b e s = (if b then err e else ok tt, s)

abbrev pub modify {ℓ} : {S : Type ℓ} → (S → S) → Exec S (Unit {0})
modify f s = (ok tt, f s)

-- A sequence that succeeds: its parts do.
pub >>=-eq_ok {ℓ κ μ} :
    {S : Type ℓ} {A : Type κ} {B : Type μ} (m : Exec S A) (f : A → Exec S B) (s t : S) (b : B)
    → (m >>= f) s ≡ (ok b, t)
    → (a : A) × (s' : S) × (m s ≡ (ok a, s')) × (f a s' ≡ (ok b, t))
>>=-eq_ok {S} {A} {B} m f s t b = go (m s) refl
  where
    go :
        (p : Result A × S)
        → m s ≡ p
        → elim p.0 [ ok a ↦ f a p.1 | err e ↦ (err e, p.1) ] ≡ (ok b, t)
        → (a : A) × (s' : S) × (m s ≡ (ok a, s')) × (f a s' ≡ (ok b, t))
    go (ok a, s') e h = (a, s', e, h)
    go (err x, s') e h = cc

-- A sequence that fails: the first part does, or the second does after it.
pub >>=-eq_err {ℓ κ μ} :
    {S : Type ℓ} {A : Type κ} {B : Type μ} (m : Exec S A) (f : A → Exec S B) (s t : S) (x : Error)
    → (m >>= f) s ≡ (err x, t)
    → (m s ≡ (err x, t)) ⊎ ((a : A) × (s' : S) × (m s ≡ (ok a, s')) × (f a s' ≡ (err x, t)))
>>=-eq_err {S} {A} {B} m f s t x = go (m s) refl
  where
    go :
        (p : Result A × S)
        → m s ≡ p
        → elim p.0 [ ok a ↦ f a p.1 | err e ↦ (err e, p.1) ] ≡ (err x, t)
        → (m s ≡ (err x, t)) ⊎ ((a : A) × (s' : S) × (m s ≡ (ok a, s')) × (f a s' ≡ (err x, t)))
    go (ok a, s') e h = inr (a, s', e, h)
    go (err y, s') e h = inl (e ∙ cc)
