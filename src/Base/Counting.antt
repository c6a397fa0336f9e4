-- ===== src/Base/Counting.antt =====
-- How many flags of a byte vector are set, and how a write changes that number.
use ashiato.Base.Tests.{if◌then◌else◌, ◌==◌}
use ashiato.Base.Lists.{length, get_or, set, push_back, pop_back, fill, length-pop_back, length-set}
use ashiato.Base.Reads.{get_or-set, get_or-pop_back}
use mathlib.Core.Bool.{not}
use Prim.Native.Nat.{ℕ, zero, suc, ◌+◌, ◌-◌, ◌≤◌, ◌<◌}
use mathlib.Core.Path.{◌≡◌, refl}
use mathlib.Core.List.{List, [], ◌∷◌}
use native.Mathlib.Omega.{arith}

-- 1 for a set flag, 0 for a cleared one.
abbrev pub flag : ℕ → ℕ
flag zero = 0
flag (suc b) = 1

unfoldable pub count_set : List ℕ → ℕ
count_set [] = 0
count_set (b ∷ bs) = flag b + count_set bs

pub count_set-nil : count_set [] ≡ 0
unfolding count_set
count_set-nil = refl

pub count_set-set :
    (bs : List ℕ) (i v : ℕ)
    → i < length bs
    → count_set (set bs i v) + flag (get_or bs i 0) ≡ count_set bs + flag v
unfolding count_set
count_set-set [] i v h = absurd (omega arith)
count_set-set (b ∷ bs) zero v h = omega arith
count_set-set (b ∷ bs) (suc i) v h = omega (arith, count_set-set bs i v (omega arith))

pub count_set-push_back : (bs : List ℕ) (b : ℕ) → count_set (push_back bs b) ≡ count_set bs + flag b
unfolding count_set
count_set-push_back [] b = omega arith
count_set-push_back (a ∷ bs) b = omega (arith, count_set-push_back bs b)

pub count_set-pop_back :
    (bs : List ℕ) → count_set (pop_back bs) + flag (get_or bs (length bs - 1) 0) ≡ count_set bs
unfolding count_set
count_set-pop_back [] = omega arith
count_set-pop_back (a ∷ []) = omega arith
count_set-pop_back (a ∷ b ∷ bs) = ground (arith, count_set-pop_back (b ∷ bs))

pub count_set-fill : (bs : List ℕ) → count_set (fill bs 0) ≡ 0
unfolding count_set
count_set-fill [] = refl
count_set-fill (b ∷ bs) = omega (arith, count_set-fill bs)

pub flag-le-count_set : (bs : List ℕ) (i : ℕ) → flag (get_or bs i 0) ≤ count_set bs
unfolding count_set
flag-le-count_set [] i = omega arith
flag-le-count_set (b ∷ bs) zero = omega arith
flag-le-count_set (b ∷ bs) (suc i) = omega (arith, flag-le-count_set bs i)

-- `xs` with its last element moved to `d` and the end cut off.
unfoldable pub swap_remove : ℕ → List ℕ → List ℕ
swap_remove d xs =
    if not (d == length xs - 1)
    then pop_back (set xs d (get_or xs (length xs - 1) 0))
    else pop_back xs

module _ (xs : List ℕ) (d : ℕ) (b : d < length xs) where
  pub length-swap_remove : length (swap_remove d xs) ≡ length xs - 1
  unfolding swap_remove
  length-swap_remove = ground (
    arith,
    length-pop_back xs,
    length-pop_back (set xs d (get_or xs (length xs - 1) 0)),
    length-set xs d (get_or xs (length xs - 1) 0),
  )

  pub get_or-swap_remove :
      (j : ℕ)
      → j < length xs - 1
      → get_or (swap_remove d xs) j 0
        ≡ (if j == d then get_or xs (length xs - 1) 0 else get_or xs j 0)
  unfolding swap_remove
  get_or-swap_remove j h = ground (
    arith,
    get_or-pop_back xs j 0,
    get_or-pop_back (set xs d (get_or xs (length xs - 1) 0)) j 0,
    length-set xs d (get_or xs (length xs - 1) 0),
    get_or-set xs d j (get_or xs (length xs - 1) 0) 0,
  )

  -- A flag that is cleared takes nothing from the count.
  pub count_set-swap_remove : get_or xs d 0 ≡ 0 → count_set (swap_remove d xs) ≡ count_set xs
  unfolding swap_remove
  count_set-swap_remove e = ground (
    arith,
    count_set-pop_back xs,
    count_set-pop_back (set xs d (get_or xs (length xs - 1) 0)),
    count_set-set xs d (get_or xs (length xs - 1) 0),
    length-set xs d (get_or xs (length xs - 1) 0),
    get_or-set xs d (length xs - 1) (get_or xs (length xs - 1) 0) 0,
  )
