-- ===== src/Prelude/Result.antt =====
-- Runs of C code: a value, or the undefined behaviour that stops the run from meaning anything.
use mathlib.Core.Path.{◌≡◌, refl}
use mathlib.Core.Bool.{Bool, true, false}

pub data Fault : Type 0 where
  null_dereference out_of_bounds division_by_zero uninitialised double_free invalid_free : Fault

pub data Run {ℓ} (A : Type ℓ) : Type ℓ where
  fault : Fault → Run A
  ok : A → Run A

-- The access or the release is defined only if the test holds.
abbrev pub check : Bool → Fault → Run (Unit {0})
check true e = ok tt
check false e = fault e

module _ {κ} {B : Type κ} where
  infixl 5 ◌>>=◌ ◌>>◌
  abbrev pub ◌>>=◌ {ℓ} : {A : Type ℓ} → Run A → (A → Run B) → Run B
  fault e >>= next = fault e
  ok a >>= next = next a

  abbrev pub ◌>>◌ : Run (Unit {0}) → Run B → Run B
  first >> second = first >>= λ _. second

  -- Inversion of a bind that ends normally.
  pub >>=-eq-ok {ℓ} :
      {A : Type ℓ} (r : Run A) (next : A → Run B) {b : B}
      → (r >>= next) ≡ ok b
      → (a : A) × (r ≡ ok a) × (next a ≡ ok b)
  >>=-eq-ok (fault e) next h = cc
  >>=-eq-ok (ok a) next h = (a, refl, h)
