-- ===== src/Jobs/Batch/Calls.antt =====
-- How many of the calls of the tasks of src/jobs.cpp pass a test, in all and task by task.
use ashiato.Base.{
  ℕ, zero, suc, ◌+◌, ◌<◌, ◌≤◌, ◌≡◌, ◌∙◌, refl, ap, Bool, true, false, ◌&&◌, ◌==◌, ltb, List, [],
  ◌∷◌, arith, get_elem?, set, push_back, some, Bool-cases, inl, inr, ==_iff,
}
use ashiato.Jobs.Batch.{Call}

abbrev pub one_if : Bool → ℕ
one_if true = 1
one_if false = 0

abbrev pub tally : (Call → Bool) → List Call → ℕ
tally p [] = 0
tally p (c ∷ cs) = one_if (p c) + tally p cs

pub tally-set :
    (p : Call → Bool) (cs : List Call) (n : ℕ) (old c : Call)
    → get_elem? cs n ≡ some old
    → tally p (set cs n c) + one_if (p old) ≡ tally p cs + one_if (p c)
tally-set p [] n old c e = absurd (ground arith)
tally-set p (x ∷ cs) zero old c e = ground arith
tally-set p (x ∷ cs) (suc n) old c e = omega (arith, tally-set p cs n old c e)

pub tally-push_back :
    (p : Call → Bool) (cs : List Call) (c : Call)
    → tally p (push_back cs c) ≡ tally p cs + one_if (p c)
tally-push_back p [] c = omega arith
tally-push_back p (x ∷ cs) c = omega (arith, tally-push_back p cs c)

-- The calls of one task that pass the test.
abbrev pub of_task : ℕ → (Call → Bool) → Call → Bool
of_task task p c = task == c.task && p c

-- The sum over the first `n` tasks
abbrev pub total : (Call → Bool) → List Call → ℕ → ℕ
total p cs zero = 0
total p cs (suc n) = tally (of_task n p) cs + total p cs n

total-nil : (p : Call → Bool) (n : ℕ) → total p [] n ≡ 0
total-nil p zero = refl
total-nil p (suc n) = rw (total-nil p n) (omega arith)

total-cons :
    (p : Call → Bool) (c : Call) (cs : List Call) (n : ℕ)
    → total p (c ∷ cs) n ≡ one_if (ltb c.task n && p c) + total p cs n
total-cons p c cs zero = ground arith
total-cons p c cs (suc n) = ground (arith, total-cons p c cs n)

-- All calls are of the first `n` tasks.
abbrev pub AllBelow : ℕ → List Call → Type 0
AllBelow n [] = Unit {0}
AllBelow n (c ∷ cs) = (c.task < n) × AllBelow n cs

pub AllBelow-push_back :
    (n : ℕ) (cs : List Call) (c : Call) → AllBelow n cs → c.task < n → AllBelow n (push_back cs c)
AllBelow-push_back n [] c h lt = (lt, tt)
AllBelow-push_back n (x ∷ cs) c h lt = (h.0, AllBelow-push_back n cs c h.1 lt)

pub AllBelow-set :
    (n : ℕ) (cs : List Call) (i : ℕ) (c : Call)
    → AllBelow n cs
    → c.task < n
    → AllBelow n (set cs i c)
AllBelow-set n [] i c h lt = tt
AllBelow-set n (x ∷ cs) zero c h lt = (lt, h.1)
AllBelow-set n (x ∷ cs) (suc i) c h lt = (h.0, AllBelow-set n cs i c h.1 lt)

pub AllBelow-get :
    (n : ℕ) (cs : List Call) (i : ℕ) (c : Call)
    → AllBelow n cs
    → get_elem? cs i ≡ some c
    → c.task < n
AllBelow-get n [] i c h e = absurd (ground arith)
AllBelow-get n (x ∷ cs) zero c h e = ground (arith, h.0)
AllBelow-get n (x ∷ cs) (suc i) c h e = AllBelow-get n cs i c h.1 e

pub total-tally :
    (p : Call → Bool) (cs : List Call) (n : ℕ) → AllBelow n cs → total p cs n ≡ tally p cs
total-tally p [] n h = total-nil p n
total-tally p (c ∷ cs) n h = ground (arith, total-cons p c cs n, total-tally p cs n h.1, h.0)

total-bound :
    (p : Call → Bool) (cs : List Call) (n : ℕ)
    → ((i : ℕ) → tally (of_task i p) cs ≤ 1)
    → total p cs n ≤ n
total-bound p cs zero few = omega arith
total-bound p cs (suc n) few = omega (arith, few n, total-bound p cs n few)

-- Where no task has more than one such call and there are as many as tasks, each has exactly one.
pub total-each :
    (p : Call → Bool) (cs : List Call) (n task : ℕ)
    → ((i : ℕ) → tally (of_task i p) cs ≤ 1)
    → total p cs n ≡ n
    → task < n
    → tally (of_task task p) cs ≡ 1
total-each p cs zero task few e h = absurd (omega arith)
total-each p cs (suc n) task few e h = elim (Bool-cases (task == n)) [
  | inl last ↦
      ap (λ i. tally (of_task i p) cs) ((==_iff task n).0 last)
      ∙ omega (arith, e, few n, total-bound p cs n few)
  | inr before ↦
      total-each p cs n task few (omega (arith, e, few n, total-bound p cs n few)) (ground arith)
]
