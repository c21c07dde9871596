-- ===== src/Prelude/Run.antt =====
-- How a call of the program ends: with a value, with a returned error, with a run-time panic, or,
-- in the model only, with its fuel used up.
use Prim.Native.String.{String}
use mathlib.Core.Path.{◌≡◌, refl, ap}
use mathlib.Core.Logic.{◌⊎◌, inl, inr}
use mathlib.Core.Option.{Option, none, some}

pub data Run {ℓ} (A : Type ℓ) : Type ℓ where
  panic out_of_fuel : Run A
  err : (message : String) → Run A
  ok : (result : A) → Run A

infixl 5 ◌>>=◌
abbrev pub ◌>>=◌ {ℓ κ} : {A : Type ℓ} {B : Type κ} → Run A → (A → Run B) → Run B
panic >>= k = panic
out_of_fuel >>= k = out_of_fuel
err message >>= k = err message
ok result >>= k = k result

-- An index or a pointer that may be missing.
abbrev pub or_panic {ℓ} : {A : Type ℓ} → Option A → Run A
or_panic none = panic
or_panic (some a) = ok a

-- A value, or the error that the program returns without it.
abbrev pub or_err {ℓ} : {A : Type ℓ} → String → Option A → Run A
or_err e none = err e
or_err e (some a) = ok a

pub ok-injective {ℓ} : {A : Type ℓ} {a b : A} → ok a ≡ ok b → a ≡ b
ok-injective e = cc

pub or_err-eq-ok {ℓ} :
    {A : Type ℓ} (e : String) (o : Option A) (a : A) → or_err e o ≡ ok a → o ≡ some a
or_err-eq-ok e none a h = cc
or_err-eq-ok e (some b) a h = ap some (ok-injective h)

pub >>=-eq-ok {ℓ κ} :
    {A : Type ℓ} {B : Type κ} (m : Run A) (f : A → Run B) {b : B}
    → (m >>= f) ≡ ok b
    → (a : A) × (m ≡ ok a) × (f a ≡ ok b)
>>=-eq-ok panic k h = cc
>>=-eq-ok out_of_fuel k h = cc
>>=-eq-ok (err message) k h = cc
>>=-eq-ok (ok result) k h = (result, refl, h)

-- To split on how a call ends and keep the equation.
pub Run-cases {ℓ} :
    {A : Type ℓ} (m : Run A)
    → ((a : A) × (m ≡ ok a)) ⊎ ((e : String) × (m ≡ err e)) ⊎ (m ≡ panic) ⊎ (m ≡ out_of_fuel)
Run-cases (ok a) = inl (a, refl)
Run-cases (err e) = inr (inl (e, refl))
Run-cases panic = inr (inr (inl refl))
Run-cases out_of_fuel = inr (inr (inr refl))
