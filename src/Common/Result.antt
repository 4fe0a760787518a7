-- ===== src/Common/Result.antt =====
-- exceptions/exceptions.hpp, and what a call ends in: a value, an exception, or undefined behaviour.
-- The texts of the exceptions are left out.
use mathlib.Core.Path.{◌≡◌, refl}
use mathlib.Core.Logic.{◌⊎◌, inl, inr}
use mathlib.Core.Bool.{Bool, true, false}
use mathlib.Core.Option.{Option, none, some}

-- The library's exceptions, and those of std that its code throws itself.
pub data Exception : Type 0 where
  init_error logic_error index_error empty_string_error : Exception
  decodification_error derivation_error out_of_range_error runtime_error : Exception
  invalid_signature expired_token_error : Exception
  std_runtime_error std_invalid_argument std_bad_alloc std_bad_array_new_length : Exception

-- `undefined` is a read or a write outside a buffer.
pub data Outcome {ℓ} (A : Type ℓ) : Type ℓ where
  ok : A → Outcome A
  throw : Exception → Outcome A
  undefined : Outcome A

-- What follows a call runs on its value alone.
module _ {ℓ κ} {A : Type ℓ} {B : Type κ} where
  infixl 5 ◌>>=◌
  abbrev pub ◌>>=◌ : Outcome A → (A → Outcome B) → Outcome B
  undefined >>= next = undefined
  throw thrown >>= next = throw thrown
  ok value >>= next = next value

module _ {ℓ} {B : Type ℓ} where
  infixl 5 ◌>>◌
  abbrev pub ◌>>◌ : Outcome (Unit {0}) → Outcome B → Outcome B
  call >> result = call >>= (λ done. result)

-- `if (test) throw e;`
abbrev pub throw_if : Bool → Exception → Outcome (Unit {0})
throw_if true e = throw e
throw_if false e = ok tt

-- `none` is a nonzero status of a C function.
abbrev pub or_throw {ℓ} : {A : Type ℓ} → Option A → Exception → Outcome A
or_throw none e = throw e
or_throw (some a) e = ok a

module _ {ℓ κ} {A : Type ℓ} {B : Type κ} where
  pub >>=-eq-ok :
      (call : Outcome A) (next : A → Outcome B) {result : B}
      → (call >>= next) ≡ ok result
      → (value : A) × (call ≡ ok value) × (next value ≡ ok result)
  >>=-eq-ok undefined next e = cc
  >>=-eq-ok (throw thrown) next e = cc
  >>=-eq-ok (ok value) next e = (value, refl, e)

pub Outcome-cases {ℓ} :
    {A : Type ℓ} (r : Outcome A)
    → ((a : A) × (r ≡ ok a)) ⊎ ((e : Exception) × (r ≡ throw e)) ⊎ (r ≡ undefined)
Outcome-cases (ok a) = inl (a, refl)
Outcome-cases (throw e) = inr (inl (e, refl))
Outcome-cases undefined = inr (inr refl)

pub or_throw-eq-ok {ℓ} :
    {A : Type ℓ} (o : Option A) (e : Exception) {a : A} → or_throw o e ≡ ok a → o ≡ some a
or_throw-eq-ok none e h = cc
or_throw-eq-ok (some b) e h = cc
