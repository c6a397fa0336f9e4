-- ===== src/Jobs/Batch/Sequential.antt =====
-- The branch of `JobGraph::tick` of src/jobs.cpp without an executor: each task is run in turn.
use ashiato.Base.{
  ℕ, zero, suc, ◌+◌, ◌<◌, ◌≤◌, ◌≡◌, ◌∙◌, refl, sym, ap, true, false, ltb, List, [], ◌∷◌, arith,
  length, get_or, get_elem?, set, push_back, length-set, length-replicate, length-push_back, Option,
  some, none, ok, lt→ltb, ==_self,
}
use mathlib.Core.Path.{subst}
use ashiato.Base.Reads.{get_or-set, get_or-replicate}
use ashiato.Jobs.Batch.{
  Phase, Batch, new, move, advance, Event, proceed_with, step, run, after_close, close_and_validate,
  record_job_task_exception,
}

-- One call of `task.run` for task `k`, which is the call with this number, to its end.
abbrev pub one_run : ℕ → Option ℕ → List Event
one_run k exception =
    Event.invoke k
    ∷ Event.proceed k none
    ∷ Event.proceed k none
    ∷ Event.proceed k none
    ∷ Event.proceed k exception
    ∷ Event.proceed k none
    ∷ []

-- The state after the first `k` tasks. What each task throws, if anything, is given.
unfoldable pub first_tasks : (ℕ → Option ℕ) → ℕ → Batch → Batch
first_tasks throws zero b = b
first_tasks throws (suc k) b = run (one_run k (throws k)) (first_tasks throws k b)

set-push_back {ℓ} :
    {A : Type ℓ} (xs : List A) (x y : A) → set (push_back xs x) (length xs) y ≡ push_back xs y
set-push_back [] x y = refl
set-push_back (z ∷ xs) x y = ap (◌∷◌ z) (set-push_back xs x y)

get_elem?-last {ℓ} :
    {A : Type ℓ} (xs : List A) (x : A) → get_elem? (push_back xs x) (length xs) ≡ some x
get_elem?-last [] x = refl
get_elem?-last (z ∷ xs) x = get_elem?-last xs x

-- The first `k` tasks have run, and no other has begun.
record Ready (n k : ℕ) (b : Batch) : Type 0 where
  expected : b.expected ≡ n
  started : b.started ≡ k
  finished : b.finished ≡ k
  open_yet : b.closed ≡ false
  kept : b.contract_violated ≡ false
  calls : length b.calls ≡ k
  tasks : length b.run_started ≡ n
  later : (i : ℕ) → k ≤ i → get_or b.run_started i false ≡ false

Ready-new : (n : ℕ) → Ready n 0 (new n)
Ready-new n = record {
  expected = refl;
  started = refl;
  finished = refl;
  open_yet = refl;
  kept = refl;
  calls = refl;
  tasks = length-replicate n false;
  later = λ i h. get_or-replicate n false i;
}

module _ (b : Batch) (exception : Option ℕ) where
  k : ℕ
  k = length b.calls

  one_run-steps :
      ltb k b.expected ≡ true
      → b.closed ≡ false
      → get_or b.run_started k false ≡ false
      → run (one_run k exception) b ≡ record b {
        started = b.started + 1;
        finished = b.finished + 1;
        run_started = set b.run_started k true;
        first_exception = record_job_task_exception exception b.first_exception;
        calls = push_back b.calls record { task = k; phase = Phase.returned };
      }
  unfolding run step proceed_with advance move k
  one_run-steps inside still free = simp (inside, get_elem?-last, set-push_back, still, free) refl

Ready-after :
    (n : ℕ) (b : Batch) (exception : Option ℕ)
    → length b.calls < n
    → Ready n (length b.calls) b
    → Ready n (suc (length b.calls)) (run (one_run (length b.calls) exception) b)
unfolding k
Ready-after n b exception lt h =
    rw
      (one_run-steps b exception (lt→ltb _ _ (omega (arith, h.expected))) h.open_yet
        (h.later _ (omega arith)))
      record {
        expected = h.expected;
        started = omega (arith, h.started);
        finished = omega (arith, h.finished);
        open_yet = h.open_yet;
        kept = h.kept;
        calls = omega (
          arith,
          length-push_back b.calls record { task = length b.calls; phase = Phase.returned },
        );
        tasks = length-set b.run_started (length b.calls) true ∙ h.tasks;
        later = λ i past.
            get_or-set b.run_started (length b.calls) i true false (omega (arith, h.tasks))
            ∙ ground (arith, h.later i);
      }

Ready-next :
    (n k : ℕ) (b : Batch) (exception : Option ℕ)
    → k < n
    → Ready n k b
    → Ready n (suc k) (run (one_run k exception) b)
Ready-next n k b exception lt h =
    subst (λ m. Ready n (suc m) (run (one_run m exception) b)) h.calls
      (Ready-after n b exception (omega (arith, h.calls))
        (subst (λ m. Ready n m b) (sym h.calls) h))

Ready-first : (n k : ℕ) (throws : ℕ → Option ℕ) → k ≤ n → Ready n k (first_tasks throws k (new n))
unfolding first_tasks
Ready-first n zero throws h = Ready-new n
Ready-first n (suc k) throws h =
    Ready-next n k (first_tasks throws k (new n)) (throws k) (omega arith)
      (Ready-first n k throws (omega arith))

-- Without an executor, where the tasks are run one after the other, the batch is accepted, whatever
-- the tasks throw.
pub first_tasks-close :
    (n : ℕ) (throws : ℕ → Option ℕ)
    → close_and_validate [] [] [] (first_tasks throws n (new n)) ≡ ok tt
unfolding close_and_validate after_close step run
first_tasks-close n throws =
    let r : Ready n n (first_tasks throws n (new n)) = Ready-first n n throws (omega arith) in
    simp (r.kept, r.started, r.finished, r.expected, ==_self) refl
