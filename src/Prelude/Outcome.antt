-- ===== src/Prelude/Outcome.antt =====
-- How a call ends: with a value, or in one of the ways in which the C++ code has no defined result.

use mathlib.Core.Path.{◌≡◌, refl}

-- `null_pointer`: a null pointer is dereferenced; `deadlock`: a thread locks a `std::mutex` that it
-- holds; `out_of_bounds`: memory outside an object is read or written; `empty_front`: `front` or
-- `pop` of an empty container; `uninitialised`: a variable is read that was never written;
-- `assertion_failed`: an assert does not hold; `overflow`: a signed number leaves its range; `out_of_fuel`: the model's bound.
pub data Fault : Type 0 where
  null_pointer deadlock out_of_bounds empty_front uninitialised assertion_failed overflow
        out_of_fuel :
      Fault

pub data Run {ℓ} (A : Type ℓ) : Type ℓ where
  ok : A → Run A
  fault : Fault → Run A

infixl 5 ◌>>=◌
abbrev pub ◌>>=◌ {ℓ κ} : {A : Type ℓ} {B : Type κ} → Run A → (A → Run B) → Run B
ok a >>= f = f a
fault e >>= f = fault e

-- A chain that ends with a value has one at its first step.
pub >>=-eq-ok {ℓ κ} :
    {A : Type ℓ} {B : Type κ} (r : Run A) (f : A → Run B) {b : B}
    → (r >>= f) ≡ ok b
    → (a : A) × (r ≡ ok a) × (f a ≡ ok b)
>>=-eq-ok (ok a) f e = (a, refl, e)
>>=-eq-ok (fault g) f e = cc
