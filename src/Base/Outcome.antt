-- ===== src/Base/Outcome.antt =====
-- Fallible code, `anyhow::Result`: a value, or an error of the component's own type.
use mathlib.Core.Path.{◌≡◌, refl}
use mathlib.Core.Logic.{◌⊎◌, inl, inr}
use mathlib.Core.Bool.{Bool, true, false}
use mathlib.Core.Option.{Option, none, some}

pub data Outcome {ℓ κ} (E : Type κ) (A : Type ℓ) : Type (ℓ ⊔ κ) where
  ok : A → Outcome E A
  err : E → Outcome E A

infixl 5 ◌>>=◌ ◌>>◌
abbrev pub ◌>>=◌ {ℓ κ μ} :
    {E : Type μ} {A : Type ℓ} {B : Type κ} → Outcome E A → (A → Outcome E B) → Outcome E B
ok a >>= f = f a
err e >>= f = err e

abbrev pub ◌>>◌ {ℓ μ} : {E : Type μ} {B : Type ℓ} → Outcome E (Unit {0}) → Outcome E B → Outcome E B
m >> k = m >>= λ _. k

-- `anyhow::bail!` under a condition.
abbrev pub ensure {μ} : {E : Type μ} → Bool → E → Outcome E (Unit {0})
ensure true e = ok tt
ensure false e = err e

-- `Option::ok_or`.
abbrev pub ok_or {ℓ μ} : {E : Type μ} {A : Type ℓ} → Option A → E → Outcome E A
ok_or none e = err e
ok_or (some a) e = ok a

-- `Result::map_err`.
abbrev pub map_err {ℓ μ ν} :
    {E : Type μ} {F : Type ν} {A : Type ℓ} → Outcome E A → (E → F) → Outcome F A
map_err (ok a) f = ok a
map_err (err e) f = err (f e)

-- To split on a computed result and keep the equation.
pub Outcome-cases {ℓ κ} :
    {E : Type κ} {A : Type ℓ} (o : Outcome E A) → ((e : E) × (o ≡ err e)) ⊎ ((a : A) × (o ≡ ok a))
Outcome-cases (ok a) = inr (a, refl)
Outcome-cases (err e) = inl (e, refl)

-- A chain that succeeds: its first part does, and the rest does on what that gives.
pub bind-ok {ℓ κ μ} :
    {E : Type μ} {A : Type ℓ} {B : Type κ} (o : Outcome E A) (f : A → Outcome E B) (b : B)
    → (o >>= f) ≡ ok b
    → (a : A) × (o ≡ ok a) × (f a ≡ ok b)
bind-ok (ok a) f b e = (a, refl, e)
bind-ok (err e') f b e = cc
