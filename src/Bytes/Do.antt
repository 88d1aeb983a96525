-- ===== src/Bytes/Do.antt =====
-- Readers in sequence, and the writers that they invert.
use dsn.Prelude.{◌≡◌, refl, sym, ap, ◌∙◌, List, [], ◌∷◌, ◌++◌, arith}
use dsn.Error.{Error, Result, ok, err, ◌>>=◌ as bind}
use dsn.Bytes.{Bytes, Reader, writes}
use mathlib.Core.List.{append_assoc, append-nil}
use mathlib.Core.Path.{subst, subst⁻¹}

infixl 5 ◌>>=◌ ◌>>◌
unfoldable pub ◌>>=◌ {ℓ κ} : {A : Type ℓ} {B : Type κ} → Reader A → (A → Reader B) → Reader B
◌>>=◌ m f bs = elim (m bs) [ ok (a, rest) ↦ f a rest | err e ↦ err e ]

abbrev pub ◌>>◌ {ℓ κ} : {A : Type ℓ} {B : Type κ} → Reader A → Reader B → Reader B
m >> k = m >>= λ _. k

unfoldable pub pure {ℓ} : {A : Type ℓ} → A → Reader A
pure a bs = ok (a, bs)

unfoldable pub fail {ℓ} : {A : Type ℓ} → Error → Reader A
fail e bs = err e

-- What `w` writes, `r` reads back as `a`, and it leaves what follows.
pub record Inverts {ℓ} {A : Type ℓ} (w : Result Bytes) (r : Reader A) (a : A) : Type ℓ where
  pub at : (bs rest : Bytes) → w ≡ ok bs → r (bs ++ rest) ≡ ok (a, rest)

pub Inverts-nil {ℓ} : {A : Type ℓ} (a : A) → Inverts (writes []) (pure a) a
unfolding writes pure
Inverts-nil a = record { at = λ bs rest e. ground arith }

pub Inverts-ok {ℓ} :
    {A : Type ℓ} (out : Bytes) {r : Reader A} {a : A}
    → ((rest : Bytes) → r (out ++ rest) ≡ ok (a, rest))
    → Inverts (ok out) r a
Inverts-ok out {r = r} {a = a} h = record {
  at = λ bs rest e. subst (λ (x : Bytes). r (x ++ rest) ≡ ok (a, rest)) (cc) (h rest);
}

pub bind_ok {ℓ κ} :
    {A : Type ℓ} {B : Type κ} (m : Reader A) (f : A → Reader B) (bs rest : Bytes) (a : A)
    → m bs ≡ ok (a, rest)
    → (m >>= f) bs ≡ f a rest
unfolding ◌>>=◌
bind_ok m f bs rest a e = rw (e, ◌>>=◌)

-- Two writes that succeed have written one after the other.
both_ok :
    (w r : Result Bytes) (bs : Bytes)
    → bind w (λ x. bind r (λ y. ok (x ++ y))) ≡ ok bs
    → (x y : Bytes) × (w ≡ ok x) × (r ≡ ok y) × (bs ≡ x ++ y)
both_ok (ok x) (ok y) bs e = (x, y, refl, refl, cc)
both_ok (ok x) (err f) bs e = cc
both_ok (err f) r bs e = cc

pub writes-eq_ok :
    (w : Result Bytes) (ws : List (Result Bytes)) (bs : Bytes)
    → writes (w ∷ ws) ≡ ok bs
    → (x y : Bytes) × (w ≡ ok x) × (writes ws ≡ ok y) × (bs ≡ x ++ y)
unfolding writes
writes-eq_ok w ws bs e = both_ok w (writes ws) bs e

pub Inverts-cons {ℓ κ} :
    {A : Type ℓ} {B : Type κ} {w : Result Bytes} (ws : List (Result Bytes)) {m : Reader A}
    (f : A → Reader B) {a : A} {b : B}
    → Inverts w m a
    → Inverts (writes ws) (f a) b
    → Inverts (writes (w ∷ ws)) (m >>= f) b
Inverts-cons {w = w} ws {m = m} f {a = a} p q = record {
  at = λ bs rest e.
      let (x, y, ex, ey, exy) = writes-eq_ok w ws bs e in
      rw (exy, append_assoc)
        (bind_ok m f (x ++ (y ++ rest)) (y ++ rest) a (p.at x (y ++ rest) ex) ∙ q.at y rest ey);
}

pub Inverts-map {ℓ κ} :
    {A : Type ℓ} {B : Type κ} {w : Result Bytes} {m : Reader A} (g : A → B) {a : A}
    → Inverts w m a
    → Inverts w (m >>= λ x. pure (g x)) (g a)
unfolding pure
Inverts-map {m = m} g {a = a} p = record {
  at = λ bs rest e. bind_ok m (λ x. pure (g x)) (bs ++ rest) rest a (p.at bs rest e);
}

-- The last write of a sequence.
pub Inverts-last {ℓ} :
    {A : Type ℓ} {w : Result Bytes} {r : Reader A} {a : A}
    → Inverts w r a
    → Inverts (writes (w ∷ [])) r a
unfolding writes
Inverts-last {w = w} {r = r} {a = a} p = record {
  at = λ bs rest e.
      let (x, y, ex, ey, exy) = writes-eq_ok w [] bs e in
      let whole : bs ≡ x = exy ∙ ap (λ t. x ++ t) (sym (ok-inj [] y ey)) ∙ append-nil x in
      subst⁻¹ (λ (b : Bytes). r (b ++ rest) ≡ ok (a, rest)) whole (p.at x rest ex);
}
  where
    ok-inj : (x y : Bytes) → ok x ≡ ok y → x ≡ y
    ok-inj x y h = cc

-- A write that does not fail.
abbrev pub Succeeds : Result Bytes → Type 0
Succeeds w = (bs : Bytes) × (w ≡ ok bs)

pub Succeeds-nil : Succeeds (writes [])
unfolding writes
Succeeds-nil = ([], refl)

pub Succeeds-cons :
    (w : Result Bytes) (ws : List (Result Bytes))
    → Succeeds w
    → Succeeds (writes ws)
    → Succeeds (writes (w ∷ ws))
unfolding writes
Succeeds-cons w ws (x, p) (y, q) = (x ++ y, ground (arith, p, q))
