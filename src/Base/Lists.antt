-- ===== src/Base/Lists.antt =====
-- `std::vector` as a list with native indices. A read past the end gives the default and a write
-- past the end changes nothing: the invariants of the components rule both out.
use Prim.Native.Nat.{ℕ, zero, suc, ◌+◌, ◌-◌, max}
use mathlib.Core.Path.{◌≡◌, refl, ap}
use mathlib.Core.List.{List, [], ◌∷◌, ◌++◌}
use mathlib.Core.Option.{Option, none, some}
use native.Mathlib.Omega.{arith}
use ashiato.Base.Tests.{if◌then◌else◌, ltb, ◌==◌}
use mathlib.Core.Bool.{Bool, false, ◌||◌}

abbrev pub elem : ℕ → List ℕ → Bool
elem x [] = false
elem x (y ∷ ys) = x == y || elem x ys

module _ {ℓ} {A : Type ℓ} where
  abbrev pub length : List A → ℕ
  length [] = 0
  length (x ∷ xs) = suc (length xs)

  abbrev pub get_or : List A → ℕ → A → A
  get_or [] i d = d
  get_or (x ∷ xs) zero d = x
  get_or (x ∷ xs) (suc i) d = get_or xs i d

  abbrev pub get_elem? : List A → ℕ → Option A
  get_elem? [] i = none
  get_elem? (x ∷ xs) zero = some x
  get_elem? (x ∷ xs) (suc i) = get_elem? xs i

  abbrev pub set : List A → ℕ → A → List A
  set [] i v = []
  set (x ∷ xs) zero v = v ∷ xs
  set (x ∷ xs) (suc i) v = x ∷ set xs i v

  abbrev pub replicate : ℕ → A → List A
  replicate zero a = []
  replicate (suc n) a = a ∷ replicate n a

  -- `v.push_back(x)`
  abbrev pub push_back : List A → A → List A
  push_back xs x = xs ++ x ∷ []

  -- `v.pop_back()`
  abbrev pub pop_back : List A → List A
  pop_back [] = []
  pop_back (x ∷ []) = []
  pop_back (x ∷ y ∷ xs) = x ∷ pop_back (y ∷ xs)

  -- `v.resize(n, a)`: cuts the end off, or fills up with `a`.
  abbrev pub resize : List A → ℕ → A → List A
  resize xs zero a = []
  resize [] (suc n) a = a ∷ resize [] n a
  resize (x ∷ xs) (suc n) a = x ∷ resize xs n a

  -- `std::fill(v.begin(), v.end(), a)`
  abbrev pub fill : List A → A → List A
  fill [] a = []
  fill (x ∷ xs) a = a ∷ fill xs a

  -- `if (i >= v.size()) v.resize(i + 1, a);`
  unfoldable pub grow_to : List A → ℕ → A → List A
  grow_to xs i a = if ltb i (length xs) then xs else resize xs (i + 1) a

  pub length-append : (xs ys : List A) → length (xs ++ ys) ≡ length xs + length ys
  length-append [] ys = omega arith
  length-append (x ∷ xs) ys = omega (arith, length-append xs ys)

  pub length-push_back : (xs : List A) (x : A) → length (push_back xs x) ≡ length xs + 1
  length-push_back xs x = omega (arith, length-append xs (x ∷ []))

  pub length-pop_back : (xs : List A) → length (pop_back xs) ≡ length xs - 1
  length-pop_back [] = omega arith
  length-pop_back (x ∷ []) = omega arith
  length-pop_back (x ∷ y ∷ xs) = omega (arith, length-pop_back (y ∷ xs))

  pub length-set : (xs : List A) (i : ℕ) (v : A) → length (set xs i v) ≡ length xs
  length-set [] i v = refl
  length-set (x ∷ xs) zero v = refl
  length-set (x ∷ xs) (suc i) v = ap suc (length-set xs i v)

  pub length-replicate : (n : ℕ) (a : A) → length (replicate n a) ≡ n
  length-replicate zero a = refl
  length-replicate (suc n) a = ap suc (length-replicate n a)

  pub length-resize : (xs : List A) (n : ℕ) (a : A) → length (resize xs n a) ≡ n
  length-resize xs zero a = refl
  length-resize [] (suc n) a = ap suc (length-resize [] n a)
  length-resize (x ∷ xs) (suc n) a = ap suc (length-resize xs n a)

  pub length-fill : (xs : List A) (a : A) → length (fill xs a) ≡ length xs
  length-fill [] a = refl
  length-fill (x ∷ xs) a = ap suc (length-fill xs a)

  pub length-grow_to :
      (xs : List A) (i : ℕ) (a : A) → length (grow_to xs i a) ≡ max (length xs) (i + 1)
  unfolding grow_to
  length-grow_to xs i a = ground (arith, length-resize xs (i + 1) a)
