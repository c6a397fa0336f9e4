-- ===== src/EntityStore/Invariant.antt =====
-- The free list that runs through the slots, and what holds of the slots it does not reach.
use ashiato.Base.{
  ℕ, ◌+◌, ◌*◌, ◌/◌, ◌%◌, ◌^◌, ◌<◌, ◌≤◌, ◌≡◌, ◌≢◌, inl, inr, Bool, true, false, arith, ◌&&◌, ◌||◌,
  ◌==◌, if◌then◌else◌, List, [], ◌∷◌, length, get_or, set, elem,
}
use ashiato.Base.Reads.{get_or-set}
use ashiato.EntityStore.{EntityStore, invalid_index, slot_index, slot_version, slot_at}

abbrev pub Distinct : List ℕ → Type 0
Distinct [] = Unit {0}
Distinct (x ∷ xs) = (elem x xs ≡ false) × Distinct xs

-- From `head`, the slots lead through exactly the indices `free` and end at `invalid_index`.
abbrev pub FreeChain : List ℕ → ℕ → List ℕ → Type 0
FreeChain slots head [] = head ≡ invalid_index
FreeChain slots head (i ∷ is) =
    (head ≡ i) × (i < length slots) × FreeChain slots (slot_index (get_or slots i 0)) is

pub record IsValid (s : EntityStore) (free : List ℕ) : Type 0 where
  pub chain : FreeChain s.slots s.free_head free
  pub distinct : Distinct free
  pub versioned : (i : ℕ) → i < length s.slots → 0 < slot_version (slot_at s i)
  pub live : (i : ℕ) → i < length s.slots → elem i free ≡ false → slot_index (slot_at s i) ≡ i
  pub room : length s.slots ≤ invalid_index

-- A write outside the free list leaves the chain as it is.
pub FreeChain-set :
    (slots : List ℕ) (head : ℕ) (free : List ℕ) (i v : ℕ)
    → i < length slots
    → elem i free ≡ false
    → FreeChain slots head free
    → FreeChain (set slots i v) head free
FreeChain-set slots head [] i v h out c = c
FreeChain-set slots head (j ∷ js) i v h out c = (
  c.0,
  omega (arith, c.1, ashiato.Base.length-set slots i v),
  let same : get_or (set slots i v) j 0 ≡ get_or slots j 0 =
        ground (arith, get_or-set slots i j v 0 h) in
      rw same (FreeChain-set slots (slot_index (get_or slots j 0)) js i v h (ground arith) c.2),
)

-- No slot of the free list carries its own index, so no handle to it is alive.
pub free-ne :
    (slots : List ℕ) (head : ℕ) (free : List ℕ) (i : ℕ)
    → length slots ≤ invalid_index
    → Distinct free
    → FreeChain slots head free
    → elem i free ≡ true
    → (i < length slots) × (slot_index (get_or slots i 0) ≢ i)
free-ne slots head [] i r d c h = absurd (ground arith)
free-ne slots head (j ∷ []) i r d c h = (ground arith, λ e. ground arith)
free-ne slots head (j ∷ k ∷ ks) i r d c h = elim (ashiato.Base.Bool-cases (i == j)) [
  | inl same ↦ (ground arith, λ e. ground arith)
  | inr other ↦ free-ne slots (slot_index (get_or slots j 0)) (k ∷ ks) i r d.1 c.2 (ground arith)
]
