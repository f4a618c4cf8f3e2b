-- ===== src/Common/Outcome.antt =====
-- What a run of C++ code comes to: a value, an exception thrown, an `assert` that fails, or
-- undefined behaviour.
use mathlib.Core.Bool.{Bool, true, false}
use mathlib.Core.Option.{Option, none, some}
use Prim.Native.String.{String}

pub data Outcome {ℓ} (A : Type ℓ) : Type ℓ where
  ok : A → Outcome A
  thrown : String → Outcome A
  assert_failed : Outcome A
  undefined : Outcome A

infixl 5 ◌>>=◌ ◌>>◌
abbrev pub ◌>>=◌ {ℓ κ} : {A : Type ℓ} {B : Type κ} → Outcome A → (A → Outcome B) → Outcome B
ok a >>= f = f a
thrown e >>= f = thrown e
assert_failed >>= f = assert_failed
undefined >>= f = undefined

abbrev pub ◌>>◌ {ℓ} : {B : Type ℓ} → Outcome (Unit {0}) → Outcome B → Outcome B
m >> k = m >>= λ _. k

-- `assert(b)`
abbrev pub assert : Bool → Outcome (Unit {0})
assert true = ok tt
assert false = assert_failed

-- `if (b) throw std::runtime_error(e);`
abbrev pub throw_if : Bool → String → Outcome (Unit {0})
throw_if true e = thrown e
throw_if false e = ok tt

-- a read that is undefined where there is nothing to read
abbrev pub or_undefined {ℓ} : {A : Type ℓ} → Option A → Outcome A
or_undefined none = undefined
or_undefined (some a) = ok a

-- The run comes to a value, and the value satisfies `P`.
abbrev pub Returns {ℓ} : {A : Type ℓ} → (A → Type 0) → Outcome A → Type 0
Returns P (ok a) = P a
Returns P (thrown e) = ⊥
Returns P assert_failed = ⊥
Returns P undefined = ⊥

pub Returns-bind {ℓ κ} :
    {A : Type ℓ} {B : Type κ} (P : A → Type 0) (Q : B → Type 0) (m : Outcome A) (f : A → Outcome B)
    → Returns P m
    → ((a : A) → P a → Returns Q (f a))
    → Returns Q (m >>= f)
Returns-bind P Q (ok a) f h k = k a h
Returns-bind P Q (thrown e) f h k = h
Returns-bind P Q assert_failed f h k = h
Returns-bind P Q undefined f h k = h

pub Returns-map {ℓ} :
    {A : Type ℓ} (P Q : A → Type 0) (m : Outcome A)
    → Returns P m
    → ((a : A) → P a → Q a)
    → Returns Q m
Returns-map P Q (ok a) h k = k a h
Returns-map P Q (thrown e) h k = h
Returns-map P Q assert_failed h k = h
Returns-map P Q undefined h k = h

pub Returns-both {ℓ} :
    {A : Type ℓ} (P Q : A → Type 0) (m : Outcome A)
    → Returns P m
    → Returns Q m
    → Returns (λ a. P a × Q a) m
Returns-both P Q (ok a) h k = (h, k)
Returns-both P Q (thrown e) h k = h
Returns-both P Q assert_failed h k = h
Returns-both P Q undefined h k = h
