-- ===== src/Base/Maps.antt =====
-- `std::unordered_map` as a list of keys and values. The laws fix what a lookup gives; the order of
-- the entries stands for that of the iteration, which the source leaves open.
use ashiato.Base.{
  ℕ, ◌≡◌, refl, Bool, true, false, ◌==◌, ◌&&◌, if◌then◌else◌, List, [], ◌∷◌, arith, Option, some,
  none,
}

module _ {ℓ} {A : Type ℓ} where
  abbrev pub find : ℕ → List (ℕ × A) → Option A
  find k [] = none
  find k ((j, v) ∷ m) = if j == k then some v else find k m

  -- `m[k] = v`, and `emplace` where the key is not there.
  abbrev pub assign : ℕ → A → List (ℕ × A) → List (ℕ × A)
  assign k v [] = (k, v) ∷ []
  assign k v ((j, w) ∷ m) = if j == k then (j, v) ∷ m else (j, w) ∷ assign k v m

  abbrev pub erase : ℕ → List (ℕ × A) → List (ℕ × A)
  erase k [] = []
  erase k ((j, w) ∷ m) = let rest = erase k m in if j == k then rest else (j, w) ∷ rest

  abbrev pub keys : List (ℕ × A) → List ℕ
  keys [] = []
  keys ((j, w) ∷ m) = j ∷ keys m

  pub find-assign :
      (k j : ℕ) (v : A) (m : List (ℕ × A))
      → find j (assign k v m) ≡ (if k == j then some v else find j m)
  find-assign k j v [] = refl
  find-assign k j v ((i, w) ∷ m) = ground (arith, find-assign k j v m)

  pub find-erase :
      (k j : ℕ) (m : List (ℕ × A)) → find j (erase k m) ≡ (if k == j then none else find j m)
  find-erase k j [] = ground arith
  find-erase k j ((i, w) ∷ m) = ground (arith, find-erase k j m)

-- `==` on vectors and on strings
unfoldable pub same_elements : List ℕ → List ℕ → Bool
same_elements [] [] = true
same_elements (x ∷ xs) (y ∷ ys) = x == y && same_elements xs ys
same_elements [] (y ∷ ys) = false
same_elements (x ∷ xs) [] = false

pub same_elements_self : (xs : List ℕ) → same_elements xs xs ≡ true
unfolding same_elements
same_elements_self [] = refl
same_elements_self (x ∷ xs) = ground (arith, same_elements_self xs)

pub same_elements-eq : (xs ys : List ℕ) → same_elements xs ys ≡ true → xs ≡ ys
unfolding same_elements
same_elements-eq [] [] h = refl
same_elements-eq (x ∷ xs) (y ∷ ys) h = ground (arith, same_elements-eq xs ys)
same_elements-eq [] (y ∷ ys) h = cc
same_elements-eq (x ∷ xs) [] h = cc

-- A map whose keys are strings
module _ {ℓ} {A : Type ℓ} where
  abbrev pub find_text : List ℕ → List (List ℕ × A) → Option A
  find_text k [] = none
  find_text k ((j, v) ∷ m) = if same_elements j k then some v else find_text k m

  abbrev pub assign_text : List ℕ → A → List (List ℕ × A) → List (List ℕ × A)
  assign_text k v [] = (k, v) ∷ []
  assign_text k v ((j, w) ∷ m) =
      if same_elements j k then (j, v) ∷ m else (j, w) ∷ assign_text k v m

  abbrev pub erase_text : List ℕ → List (List ℕ × A) → List (List ℕ × A)
  erase_text k [] = []
  erase_text k ((j, w) ∷ m) =
      let rest = erase_text k m in if same_elements j k then rest else (j, w) ∷ rest

  pub find-assign_text :
      (k : List ℕ) (v : A) (m : List (List ℕ × A)) → find_text k (assign_text k v m) ≡ some v
  find-assign_text k v [] = rw (same_elements_self k) refl
  find-assign_text k v ((j, w) ∷ m) = ground (arith, find-assign_text k v m)
