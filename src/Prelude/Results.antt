-- ===== src/Prelude/Results.antt =====
-- What a Go call ends with: a value, an error value, or a run-time panic.
use mathlib.Core.Path.{◌≡◌, refl}
use mathlib.Core.Logic.{◌≢◌, ◌⊎◌, inl, inr}

pub data Outcome {ℓ} (E A : Type ℓ) : Type ℓ where
  ok : A → Outcome E A
  err : E → Outcome E A
  panic : Outcome E A

infixl 5 ◌>>=◌
abbrev pub ◌>>=◌ {ℓ} : {E A B : Type ℓ} → Outcome E A → (A → Outcome E B) → Outcome E B
ok a >>= f = f a
err e >>= f = err e
panic >>= f = panic

pub Outcome-cases {ℓ} :
    {E A : Type ℓ} (o : Outcome E A)
    → ((a : A) × (o ≡ ok a)) ⊎ (((e : E) × (o ≡ err e)) ⊎ (o ≡ panic))
Outcome-cases (ok a) = inl (a, refl)
Outcome-cases (err e) = inr (inl (e, refl))
Outcome-cases panic = inr (inr refl)

pub ok_inj {ℓ} : {E A : Type ℓ} {a b : A} → ◌≡◌ {A = Outcome E A} (ok a) (ok b) → a ≡ b
ok_inj e = cc

pub err-ne-ok {ℓ} : {E A : Type ℓ} {x : E} {a : A} → ◌≢◌ {A = Outcome E A} (err x) (ok a)
err-ne-ok = λ e. cc

pub panic-ne-ok {ℓ} : {E A : Type ℓ} {a : A} → ◌≢◌ {A = Outcome E A} panic (ok a)
panic-ne-ok = λ e. cc

-- What a chain of calls gave, its first call gave before.
pub bind_ok {ℓ} :
    {E A B : Type ℓ} (o : Outcome E A) (next : A → Outcome E B) {b : B}
    → (o >>= next) ≡ ok b
    → (a : A) × (o ≡ ok a) × (next a ≡ ok b)
bind_ok (ok a) next e = (a, refl, e)
bind_ok (err x) next e = cc
bind_ok panic next e = cc
