-- ===== src/Base/Errors.antt =====
-- The exceptions that the library throws, as values, and the chaining of calls that may throw.
use mathlib.Core.Path.{◌≡◌, refl}
use mathlib.Core.Bool.{Bool, true, false}

-- The exceptions of the standard library that the source throws.
pub data Error : Type 0 where
  logic_error out_of_range length_error invalid_argument runtime_error : Error

-- A call throws, or it returns a value.
pub data Result {ℓ} (Value : Type ℓ) : Type ℓ where
  err : Error → Result Value
  ok : Value → Result Value

module _ {ℓ κ} {Value : Type ℓ} {Next : Type κ} where
  -- What comes after a call, unless it throws.
  infixl 5 ◌>>=◌
  abbrev pub ◌>>=◌ : Result Value → (Value → Result Next) → Result Next
  err thrown >>= after = err thrown
  ok value >>= after = after value

module _ {ℓ} {Next : Type ℓ} where
  -- The same after a call that returns nothing.
  infixl 5 ◌>>◌
  abbrev pub ◌>>◌ : Result (Unit {0}) → Result Next → Result Next
  err thrown >> after = err thrown
  ok nothing >> after = after

-- `if (test) throw e;`
abbrev pub throw_if : Bool → Error → Result (Unit {0})
throw_if test thrown = elim test [ false ↦ ok tt | true ↦ err thrown ]

-- Inversion of a chain that succeeds.
pub bind-ok {ℓ κ} :
    {A : Type ℓ} {B : Type κ} (m : Result A) (f : A → Result B) (b : B)
    → (m >>= f) ≡ ok b
    → (a : A) × (m ≡ ok a) × (f a ≡ ok b)
bind-ok (err e) f b h = cc
bind-ok (ok a) f b h = (a, refl, h)

pub then-ok {ℓ} :
    {B : Type ℓ} (m : Result (Unit {0})) (k : Result B) (b : B)
    → (m >> k) ≡ ok b
    → (m ≡ ok tt) × (k ≡ ok b)
then-ok (err e) k b h = cc
then-ok (ok nothing) k b h = (refl, h)

pub ok-eq {ℓ} : {A : Type ℓ} {a b : A} → ok a ≡ ok b → a ≡ b
ok-eq h = cc
