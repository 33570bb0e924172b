-- ===== src/Prelude/Result.antt =====
-- What a Python call leaves behind: a value, or the exception that it raised. `E` is the type of
-- the exceptions that the code at hand tells apart.
use mathlib.Core.Path.{◌≡◌, refl, ap}
use mathlib.Core.Logic.{◌⊎◌, inl, inr}
use mathlib.Core.Bool.{Bool, true, false}
use construct_protos.Prelude.Tests.{if◌then◌else◌}

pub data Result {ℓ κ} (E : Type ℓ) (A : Type κ) : Type (ℓ ⊔ κ) where
  ok : A → Result E A
  err : E → Result E A

infixl 5 ◌>>=◌
abbrev pub ◌>>=◌ {ℓ κ μ} :
    {E : Type ℓ} {A : Type κ} {B : Type μ} → Result E A → (A → Result E B) → Result E B
ok a >>= f = f a
err e >>= f = err e

-- The exceptions of the standard library that the scripts can meet.
pub data Exception : Type 0 where
  value_error struct_error index_error key_error assertion_error type_error : Exception

abbrev pub Raises {ℓ} : Type ℓ → Type ℓ
Raises A = Result Exception A

pub bind_ok {ℓ κ μ} :
    {E : Type ℓ} {A : Type κ} {B : Type μ} (m : Result E A) (f : A → Result E B) {b : B}
    → (m >>= f) ≡ ok b
    → (a : A) × (m ≡ ok a) × (f a ≡ ok b)
bind_ok (ok a) f h = (a, refl, h)
bind_ok (err e) f h = cc

pub Result-cases {ℓ κ} :
    {E : Type ℓ} {A : Type κ} (r : Result E A) → ((a : A) × (r ≡ ok a)) ⊎ ((e : E) × (r ≡ err e))
Result-cases (ok a) = inl (a, refl)
Result-cases (err e) = inr (e, refl)

-- A call that returned has passed its guards.
pub guard_inv {ℓ κ} :
    {E : Type ℓ} {A : Type κ} (t : Bool) (x : E) (m : Result E A) {a : A}
    → (if t then err x else m) ≡ ok a
    → (t ≡ false) × (m ≡ ok a)
guard_inv true x m e = cc
guard_inv false x m e = (refl, e)

abbrev value_of {ℓ κ} : {E : Type ℓ} {A : Type κ} → A → Result E A → A
value_of a (ok b) = b
value_of a (err e) = a

pub ok_injective {ℓ κ} :
    {E : Type ℓ} {A : Type κ} {a b : A} → ◌≡◌ {A = Result E A} (ok a) (ok b) → a ≡ b
ok_injective {a} e = ap (value_of a) e

pub err_ne_ok {ℓ κ} :
    {E : Type ℓ} {A : Type κ} {x : E} {a : A} → ◌≡◌ {A = Result E A} (err x) (ok a) → ⊥
err_ne_ok e = cc
