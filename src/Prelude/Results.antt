-- ===== src/Prelude/Results.antt =====
-- What a Rust call comes back with: a value, an error value, or a panic.
use mathlib.Core.Path.{◌≡◌, refl}
use mathlib.Core.Logic.{◌⊎◌, inl, inr}
use mathlib.Core.Option.{Option, none, some}

pub data Outcome {ℓ} (E : Type 0) (A : Type ℓ) : Type ℓ where
  ok : A → Outcome E A
  err : E → Outcome E A
  panic : Outcome E A

infixl 5 ◌>>=◌
abbrev pub ◌>>=◌ {ℓ κ} :
    {E : Type 0} {A : Type ℓ} {B : Type κ} → Outcome E A → (A → Outcome E B) → Outcome E B
ok a >>= f = f a
err e >>= f = err e
panic >>= f = panic

-- `?` and `map_err` between error types.
abbrev pub map_err {ℓ} : {E F : Type 0} {A : Type ℓ} → (E → F) → Outcome E A → Outcome F A
map_err f (ok a) = ok a
map_err f (err e) = err (f e)
map_err f panic = panic

-- `unwrap_or`: a panic is not caught.
abbrev pub unwrap_or {ℓ} : {E F : Type 0} {A : Type ℓ} → Outcome E A → A → Outcome F A
unwrap_or (ok a) d = ok a
unwrap_or (err e) d = ok d
unwrap_or panic d = panic

abbrev pub ok_or {ℓ} : {E : Type 0} {A : Type ℓ} → E → Option A → Outcome E A
ok_or e none = err e
ok_or e (some a) = ok a

-- The call succeeds, and its value meets `P`.
abbrev pub Returns {ℓ} : {E : Type 0} {A : Type ℓ} → (A → Type 0) → Outcome E A → Type 0
Returns P (ok a) = P a
Returns P (err e) = ⊥
Returns P panic = ⊥

pub Returns-eq {ℓ} :
    {E : Type 0} {A : Type ℓ} (P : A → Type 0) (r : Outcome E A)
    → Returns P r
    → (a : A) × (r ≡ ok a) × P a
Returns-eq P (ok a) h = (a, refl, h)
Returns-eq P (err e) h = elim h [ ]
Returns-eq P panic h = elim h [ ]

-- To split on an outcome and keep the equation.
pub Outcome-cases {ℓ} :
    {E : Type 0} {A : Type ℓ} (r : Outcome E A)
    → (r ≡ panic) ⊎ ((e : E) × (r ≡ err e)) ⊎ ((a : A) × (r ≡ ok a))
Outcome-cases (ok a) = inr (inr (a, refl))
Outcome-cases (err e) = inr (inl (e, refl))
Outcome-cases panic = inl refl
