-- ===== src/Jobs/Ranges.antt =====
-- The split of a job's entities over threads in `JobGraph::tick` of src/jobs.cpp.
use ashiato.Base.{
  ℕ, zero, suc, ◌+◌, ◌-◌, ◌*◌, ◌<◌, ◌≤◌, ◌≡◌, ◌∙◌, refl, sym, max, List, [], ◌∷◌, ◌++◌, arith, ap,
  length, get_elem?, map, Option, some, push_back, length-push_back,
}
use Prim.Native.Nat.{min, ◌/◌}
use mathlib.Core.List.{append_assoc, append-nil}
use native.Mathlib.Nat.{
  le-div_iff_mul-le, div-mul-le_self, mul-le-mul_left, mul-div_cancel, mul-zero, zero-div,
  div-le_of_le-mul, mul_comm,
}

-- `desired_threads` and `thread_count`
unfoldable pub thread_count : ℕ → ℕ → ℕ → ℕ
thread_count entity_count min_entities_per_thread max_threads =
    let desired_threads =
      max 1 ((entity_count + min_entities_per_thread - 1) / min_entities_per_thread) in
    min max_threads desired_threads

-- `begin` and `end` of the thread with this index
unfoldable pub range_begin : ℕ → ℕ → ℕ → ℕ
range_begin entity_count thread_count thread_index = entity_count * thread_index / thread_count

unfoldable pub range_end : ℕ → ℕ → ℕ → ℕ
range_end entity_count thread_count thread_index = entity_count * (thread_index + 1) / thread_count

-- The ranges of the first `k` threads.
unfoldable pub first_ranges : ℕ → ℕ → ℕ → List (ℕ × ℕ)
first_ranges entity_count thread_count zero = []
first_ranges entity_count thread_count (suc k) =
    push_back (first_ranges entity_count thread_count k)
      (range_begin entity_count thread_count k, range_end entity_count thread_count k)

-- The ranges of all threads of a job.
unfoldable pub task_ranges : ℕ → ℕ → ℕ → List (ℕ × ℕ)
task_ranges entity_count min_entities_per_thread max_threads =
    let threads = thread_count entity_count min_entities_per_thread max_threads in
    first_ranges entity_count threads threads

-- The ranges stand in the vector, each from its begin to its end.
abbrev pub InBounds : ℕ → List (ℕ × ℕ) → Type 0
InBounds size [] = Unit {0}
InBounds size ((b, e) ∷ rs) = (b ≤ e) × (e ≤ size) × InBounds size rs

module _ {ℓ} {A : Type ℓ} where
  -- `indices[position]` for so many positions from this one on; past the end there is none.
  unfoldable pub reads : List A → ℕ → ℕ → List (Option A)
  reads xs position zero = []
  reads xs position (suc rounds) = get_elem? xs position ∷ reads xs (position + 1) rounds

  -- What the ranges read, one range after the other.
  unfoldable pub visited : List A → List (ℕ × ℕ) → List (Option A)
  visited xs [] = []
  visited xs ((b, e) ∷ rs) = reads xs b (e - b) ++ visited xs rs

  reads-reads : (xs : List A) (b k m : ℕ) → reads xs b k ++ reads xs (b + k) m ≡ reads xs b (k + m)
  unfolding reads
  reads-reads xs b zero m = ap (λ p. reads xs p m) (omega arith) ∙ ap (reads xs b) (omega arith)
  reads-reads xs b (suc k) m =
      ap (λ rest. get_elem? xs b ∷ rest)
        (ap (λ p. reads xs (b + 1) k ++ reads xs p m) (omega arith) ∙ reads-reads xs (b + 1) k m)
      ∙ ap (reads xs b) {x = suc (k + m)} (omega arith)

  reads-later : (x : A) (xs : List A) (b k : ℕ) → reads (x ∷ xs) (suc b) k ≡ reads xs b k
  unfolding reads
  reads-later x xs b zero = refl
  reads-later x xs b (suc k) =
      ap (λ rest. get_elem? xs b ∷ rest)
        (ap (λ p. reads (x ∷ xs) p k) (omega arith) ∙ reads-later x xs (b + 1) k)

  reads-all : (xs : List A) → reads xs 0 (length xs) ≡ map some xs
  unfolding reads
  reads-all [] = refl
  reads-all (x ∷ xs) = ap (λ rest. some x ∷ rest) (reads-later x xs 0 (length xs) ∙ reads-all xs)

  visited-push_back :
      (xs : List A) (rs : List (ℕ × ℕ)) (b e : ℕ)
      → visited xs (push_back rs (b, e)) ≡ visited xs rs ++ reads xs b (e - b)
  unfolding visited
  visited-push_back xs [] b e = append-nil (reads xs b (e - b))
  visited-push_back xs ((b', e') ∷ rs) b e =
      rw (visited-push_back xs rs b e)
        (sym (append_assoc (reads xs b' (e' - b')) (visited xs rs) (reads xs b (e - b))))

InBounds-push_back :
    (size : ℕ) (rs : List (ℕ × ℕ)) (b e : ℕ)
    → InBounds size rs
    → b ≤ e
    → e ≤ size
    → InBounds size (push_back rs (b, e))
InBounds-push_back size [] b e inside le fits = (le, fits, tt)
InBounds-push_back size (r ∷ rs) b e inside le fits =
    (inside.0, inside.1, InBounds-push_back size rs b e inside.2 le fits)

begin-le-end : (n t k : ℕ) → 0 < t → range_begin n t k ≤ range_end n t k
unfolding range_begin range_end
begin-le-end n t k pos =
    (le-div_iff_mul-le pos).1
      (omega (arith, div-mul-le_self (n * k) t, mul-le-mul_left n (le-step k)))
  where
    le-step : (k : ℕ) → k ≤ k + 1
    le-step k = omega arith

begin-zero : (n t : ℕ) → 0 < t → range_begin n t 0 ≡ 0
unfolding range_begin
begin-zero n t pos = rw (mul-zero, zero-div) refl

end-all : (n t : ℕ) → 0 < t → range_begin n t t ≡ n
unfolding range_begin
end-all n t pos = mul-div_cancel n pos

next_begin : (n t k : ℕ) → range_begin n t (suc k) ≡ range_end n t k
unfolding range_begin range_end
next_begin n t k = ap (λ m. n * m / t) (omega arith)

-- The first ranges read the front of the vector.
visited-first_ranges {ℓ} :
    {A : Type ℓ} (xs : List A) (n t k : ℕ)
    → 0 < t
    → visited xs (first_ranges n t k) ≡ reads xs 0 (range_begin n t k)
unfolding first_ranges visited
visited-first_ranges xs n t zero pos = rw (begin-zero n t pos) (unfold reads in refl)
visited-first_ranges xs n t (suc k) pos =
    let b : ℕ = range_begin n t k in
    let e : ℕ = range_end n t k in
    visited-push_back xs (first_ranges n t k) b e
    ∙ ap (λ front. front ++ reads xs b (e - b)) (visited-first_ranges xs n t k pos)
    ∙ ap (λ p. reads xs 0 b ++ reads xs p (e - b)) (omega arith)
    ∙ reads-reads xs 0 b (e - b)
    ∙ ap (reads xs 0) (omega (arith, begin-le-end n t k pos, next_begin n t k))

end-inside : (n t k : ℕ) → 0 < t → k < t → range_end n t k ≤ n
unfolding range_end
end-inside n t k pos lt =
    div-le_of_le-mul t (rw (mul_comm n t) at (mul-le-mul_left n (next-le k lt)))
  where
    next-le : (j : ℕ) → j < t → j + 1 ≤ t
    next-le j h = omega arith

InBounds-first_ranges : (n t k : ℕ) → 0 < t → k ≤ t → InBounds n (first_ranges n t k)
unfolding first_ranges
InBounds-first_ranges n t zero pos le = tt
InBounds-first_ranges n t (suc k) pos le =
    InBounds-push_back n (first_ranges n t k) (range_begin n t k) (range_end n t k)
      (InBounds-first_ranges n t k pos (omega arith)) (begin-le-end n t k pos)
      (end-inside n t k pos (omega arith))

length-first_ranges : (n t k : ℕ) → length (first_ranges n t k) ≡ k
unfolding first_ranges
length-first_ranges n t zero = refl
length-first_ranges n t (suc k) = omega (
  arith,
  length-push_back (first_ranges n t k) (range_begin n t k, range_end n t k),
  length-first_ranges n t k,
)

-- Where a job may use a thread, at least one and at most `max_threads` threads are used. Their ranges
-- stand in the vector of the job's entities, and the positions that they read, one range after the
-- other, hold all the entities of the job, each once and in order.
pub task_ranges-cover {ℓ} :
    {A : Type ℓ} (indices : List A) (min_entities_per_thread max_threads : ℕ)
    → 0 < max_threads
    → (visited indices (task_ranges (length indices) min_entities_per_thread max_threads)
        ≡ map some indices)
      × InBounds (length indices) (task_ranges (length indices) min_entities_per_thread max_threads)
      × (0 < length (task_ranges (length indices) min_entities_per_thread max_threads))
      × (length (task_ranges (length indices) min_entities_per_thread max_threads) ≤ max_threads)
unfolding task_ranges thread_count
task_ranges-cover indices least most pos =
    let t : ℕ = thread_count (length indices) least most in
    let some_thread : 0 < t = omega arith in
    let few : t ≤ most = omega arith in
    (
      visited-first_ranges indices (length indices) t t some_thread
          ∙ rw (end-all (length indices) t some_thread) (reads-all indices),
      InBounds-first_ranges (length indices) t t some_thread (omega arith),
      omega (arith, some_thread, length-first_ranges (length indices) t t),
      omega (arith, few, length-first_ranges (length indices) t t),
    )
