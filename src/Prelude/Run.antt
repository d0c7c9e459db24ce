-- ===== src/Prelude/Run.antt =====
-- How a call ends: with a value, or in one of the ways in which C code leaves the program.
use mathlib.Core.Path.{◌≡◌, refl, ap}
use mathlib.Core.Logic.{◌⊎◌, inl, inr}
use mathlib.Core.Bool.{Bool, true, false}
use mathlib.Core.Option.{Option, none, some}

-- An access outside an array or through NULL, a failed `BUG_ON`, a division by zero, a shift that C does not define, the use of a variable that was
-- never written, or the model's fuel.
pub data Fault : Type 0 where
  out_of_bounds null_dereference bug_on divide_by_zero bad_shift uninitialised out_of_fuel : Fault

pub data Run {ℓ} (A : Type ℓ) : Type ℓ where
  ok : A → Run A
  fault : Fault → Run A

infixl 5 ◌>>=◌ ◌>>◌
abbrev pub ◌>>=◌ {ℓ κ} : {A : Type ℓ} {B : Type κ} → Run A → (A → Run B) → Run B
ok a >>= f = f a
fault e >>= f = fault e

abbrev pub ◌>>◌ {ℓ} : {B : Type ℓ} → Run (Unit {0}) → Run B → Run B
m >> k = m >>= λ _. k

abbrev pub or_fault {ℓ} : {A : Type ℓ} → Option A → Fault → Run A
or_fault none e = fault e
or_fault (some a) e = ok a

-- NVMEV_ASSERT of nvmev.h: `BUG_ON(!x)`.
abbrev pub nvmev_assert : Bool → Run (Unit {0})
nvmev_assert true = ok tt
nvmev_assert false = fault bug_on

pub Run-cases {ℓ} :
    {A : Type ℓ} (m : Run A) → ((a : A) × (m ≡ ok a)) ⊎ ((e : Fault) × (m ≡ fault e))
Run-cases (ok a) = inl (a, refl)
Run-cases (fault e) = inr (e, refl)

-- Inversion of a successful sequence.
pub >>=-eq-ok {ℓ κ} :
    {A : Type ℓ} {B : Type κ} (m : Run A) (f : A → Run B) (b : B)
    → (m >>= f) ≡ ok b
    → (a : A) × (m ≡ ok a) × (f a ≡ ok b)
>>=-eq-ok (ok a) f b h = (a, refl, h)
>>=-eq-ok (fault e) f b h = cc

pub ok-injective {ℓ} : {A : Type ℓ} {a b : A} → ok a ≡ ok b → a ≡ b
ok-injective {A} {a} h = ap (λ (m : Run A). elim m [ ok x ↦ x | fault e ↦ a ]) h

pub or_fault-eq-ok {ℓ} :
    {A : Type ℓ} (o : Option A) (e : Fault) (a : A) → or_fault o e ≡ ok a → o ≡ some a
or_fault-eq-ok none e a h = cc
or_fault-eq-ok (some x) e a h = ap some (ok-injective h)
