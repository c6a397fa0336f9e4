-- ===== src/Base/Reads.antt =====
-- What a read sees after each write to a vector, in `if` form.
use ashiato.Base.Tests.{if◌then◌else◌, ◌==◌, ltb, Bool-cases, ltb→lt, ltb→le}
use ashiato.Base.Lists.{
  length, get_or, get_elem?, set, replicate, push_back, pop_back, resize, fill, grow_to,
  length-resize,
}
use Prim.Native.Nat.{ℕ, zero, suc, ◌+◌, ◌-◌, ◌≤◌, ◌<◌}
use mathlib.Core.Path.{◌≡◌, refl}
use mathlib.Core.List.{List, [], ◌∷◌, ◌++◌}
use mathlib.Core.Logic.{inl, inr}
use mathlib.Core.Option.{some, none}
use native.Mathlib.Omega.{arith}

module _ {ℓ} {A : Type ℓ} where
  pub get_or-set :
      (xs : List A) (i j : ℕ) (v d : A)
      → i < length xs
      → get_or (set xs i v) j d ≡ (if i == j then v else get_or xs j d)
  get_or-set [] i j v d h = absurd (omega arith)
  get_or-set (x ∷ xs) zero zero v d h = refl
  get_or-set (x ∷ xs) zero (suc j) v d h = ground arith
  get_or-set (x ∷ xs) (suc i) zero v d h = ground arith
  get_or-set (x ∷ xs) (suc i) (suc j) v d h = ground (arith, get_or-set xs i j v d)

  pub get_or-past : (xs : List A) (i : ℕ) (d : A) → length xs ≤ i → get_or xs i d ≡ d
  get_or-past [] i d h = refl
  get_or-past (x ∷ xs) zero d h = absurd (omega arith)
  get_or-past (x ∷ xs) (suc i) d h = get_or-past xs i d (omega arith)

  pub get_or-append :
      (xs ys : List A) (j : ℕ) (d : A)
      → get_or (xs ++ ys) j d
        ≡ (if ltb j (length xs) then get_or xs j d else get_or ys (j - length xs) d)
  get_or-append [] ys j d = ground arith
  get_or-append (x ∷ xs) ys zero d = ground arith
  get_or-append (x ∷ xs) ys (suc j) d = ground (arith, get_or-append xs ys j d)

  pub get_or-push_back :
      (xs : List A) (x : A) (j : ℕ) (d : A)
      → get_or (push_back xs x) j d ≡ (if j == length xs then x else get_or xs j d)
  get_or-push_back [] x zero d = refl
  get_or-push_back [] x (suc j) d = ground arith
  get_or-push_back (y ∷ xs) x zero d = ground arith
  get_or-push_back (y ∷ xs) x (suc j) d = ground (arith, get_or-push_back xs x j d)

  pub get_or-pop_back :
      (xs : List A) (j : ℕ) (d : A)
      → get_or (pop_back xs) j d ≡ (if ltb (j + 1) (length xs) then get_or xs j d else d)
  get_or-pop_back [] j d = ground arith
  get_or-pop_back (x ∷ []) j d = ground arith
  get_or-pop_back (x ∷ y ∷ xs) zero d = ground arith
  get_or-pop_back (x ∷ y ∷ xs) (suc j) d = ground (arith, get_or-pop_back (y ∷ xs) j d)

  pub get_or-resize :
      (xs : List A) (n : ℕ) (a : A) (j : ℕ) (d : A)
      → j < n
      → get_or (resize xs n a) j d ≡ (if ltb j (length xs) then get_or xs j d else a)
  get_or-resize xs zero a j d h = absurd (omega arith)
  get_or-resize [] (suc n) a zero d h = refl
  get_or-resize [] (suc n) a (suc j) d h = ground (arith, get_or-resize [] n a j d)
  get_or-resize (x ∷ xs) (suc n) a zero d h = ground arith
  get_or-resize (x ∷ xs) (suc n) a (suc j) d h = ground (arith, get_or-resize xs n a j d)

  -- Growing with the default of the read changes no read.
  pub get_or-grow_to :
      (xs : List A) (i : ℕ) (a : A) (j : ℕ) → get_or (grow_to xs i a) j a ≡ get_or xs j a
  unfolding grow_to
  get_or-grow_to xs i a j = elim (Bool-cases (ltb i (length xs))) [
    | inl fits ↦ rw fits
    | inr short ↦ rw short (elim (Bool-cases (ltb j (i + 1))) [
      | inl inside ↦
          rw (get_or-resize xs (i + 1) a j a (ltb→lt _ _ inside))
            (elim (Bool-cases (ltb j (length xs))) [
              | inl old ↦ rw old
              | inr new ↦ rw (new, get_or-past xs j a (ltb→le _ _ new))
            ])
      | inr outside ↦ rw (
        get_or-past (resize xs (i + 1) a) j a
            (rw (length-resize xs (i + 1) a) (ltb→le _ _ outside)),
        get_or-past xs j a (omega (arith, ltb→le _ _ short, ltb→le _ _ outside)),
      )
    ])
  ]

  pub get_or-fill : (xs : List A) (a : A) (j : ℕ) → get_or (fill xs a) j a ≡ a
  get_or-fill [] a j = refl
  get_or-fill (x ∷ xs) a zero = refl
  get_or-fill (x ∷ xs) a (suc j) = get_or-fill xs a j

  pub get_or-replicate : (n : ℕ) (a : A) (j : ℕ) → get_or (replicate n a) j a ≡ a
  get_or-replicate zero a j = refl
  get_or-replicate (suc n) a zero = refl
  get_or-replicate (suc n) a (suc j) = get_or-replicate n a j

  pub get_elem?-set :
      (xs : List A) (i j : ℕ) (v : A)
      → i < length xs
      → get_elem? (set xs i v) j ≡ (if i == j then some v else get_elem? xs j)
  get_elem?-set [] i j v h = absurd (omega arith)
  get_elem?-set (x ∷ xs) zero zero v h = refl
  get_elem?-set (x ∷ xs) zero (suc j) v h = ground arith
  get_elem?-set (x ∷ xs) (suc i) zero v h = ground arith
  get_elem?-set (x ∷ xs) (suc i) (suc j) v h = ground (arith, get_elem?-set xs i j v)

  pub get_elem?-push_back :
      (xs : List A) (x : A) (j : ℕ)
      → get_elem? (push_back xs x) j ≡ (if j == length xs then some x else get_elem? xs j)
  get_elem?-push_back [] x zero = refl
  get_elem?-push_back [] x (suc j) = ground arith
  get_elem?-push_back (y ∷ xs) x zero = ground arith
  get_elem?-push_back (y ∷ xs) x (suc j) = ground (arith, get_elem?-push_back xs x j)

  pub get_elem?-pop_back :
      (xs : List A) (j : ℕ)
      → get_elem? (pop_back xs) j ≡ (if ltb (j + 1) (length xs) then get_elem? xs j else none)
  get_elem?-pop_back [] j = ground arith
  get_elem?-pop_back (x ∷ []) j = ground arith
  get_elem?-pop_back (x ∷ y ∷ xs) zero = ground arith
  get_elem?-pop_back (x ∷ y ∷ xs) (suc j) = ground (arith, get_elem?-pop_back (y ∷ xs) j)

  pub get_elem?-inside : (xs : List A) (j : ℕ) → j < length xs → (x : A) × (get_elem? xs j ≡ some x)
  get_elem?-inside [] j h = absurd (omega arith)
  get_elem?-inside (x ∷ xs) zero h = (x, refl)
  get_elem?-inside (x ∷ xs) (suc j) h = get_elem?-inside xs j (omega arith)
