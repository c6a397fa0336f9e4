-- ===== src/Jobs/Batch/Contract.antt =====
-- The contract of the executor: what holds where `close_and_validate_job_task_batch` returns.
use ashiato.Base.{
  ℕ, ◌+◌, ◌<◌, ◌≤◌, ◌≡◌, ◌∙◌, refl, ap, Bool, true, false, ◌&&◌, ◌==◌, ltb, List, [], ◌∷◌, arith,
  length, get_or, get_elem?, set, length-set, length-replicate, Option, some, Option-cases,
  Bool-cases, inl, inr, ==_iff, ok, ltb→lt,
}
use ashiato.Base.Reads.{get_or-set, get_or-replicate}
use ashiato.Jobs.Batch.{
  Phase, Call, Batch, new, move, violate, advance, Event, proceed_with, step, run, after_close,
  close_and_validate,
}
use ashiato.Jobs.Batch.Calls.{
  one_if, tally, tally-set, tally-push_back, of_task, total-tally, total-each, AllBelow,
  AllBelow-set, AllBelow-push_back, AllBelow-get,
}

-- The calls that hold the claim to their task, those that are counted in `started`, and those that
-- are counted in `finished`.
abbrev claims : Phase → Bool
claims Phase.entering = false
claims Phase.claiming = false
claims Phase.counting = true
claims Phase.running = true
claims Phase.leaving = true
claims Phase.returned = true
claims Phase.refused = false

abbrev counted : Phase → Bool
counted Phase.entering = false
counted Phase.claiming = false
counted Phase.counting = false
counted Phase.running = true
counted Phase.leaving = true
counted Phase.returned = true
counted Phase.refused = false

abbrev pub done : Phase → Bool
done Phase.entering = false
done Phase.claiming = false
done Phase.counting = false
done Phase.running = false
done Phase.leaving = false
done Phase.returned = true
done Phase.refused = false

abbrev claims_call : Call → Bool
claims_call c = claims c.phase

abbrev counted_call : Call → Bool
counted_call c = counted c.phase

abbrev pub done_call : Call → Bool
done_call c = done c.phase

-- What every run keeps.
record Kept (n : ℕ) (b : Batch) : Type 0 where
  expected : b.expected ≡ n
  tasks : length b.run_started ≡ n
  below : AllBelow n b.calls
  claimed : (i : ℕ) → tally (of_task i claims_call) b.calls ≡ one_if (get_or b.run_started i false)
  started : b.started ≡ tally counted_call b.calls
  finished : b.finished ≡ tally done_call b.calls

Kept-new : (n : ℕ) → Kept n (new n)
Kept-new n = record {
  expected = refl;
  tasks = length-replicate n false;
  below = tt;
  claimed = λ i. rw (get_or-replicate n false i) refl;
  started = refl;
  finished = refl;
}

module _ (n : ℕ) (b : Batch) (h : Kept n b) (i : ℕ) (exception : Option ℕ) where
  -- A call goes on to another phase, and the counters with it.
  Kept-move :
      (task : ℕ) (old next : Phase) (started finished : ℕ) (closed violated : Bool)
      (run_started : List Bool) (first : Option ℕ)
      → get_elem? b.calls i ≡ some record { task = task; phase = old }
      → length run_started ≡ n
      → ((k : ℕ)
          → one_if (get_or run_started k false) + one_if (k == task && claims old)
            ≡ one_if (get_or b.run_started k false) + one_if (k == task && claims next))
      → started + one_if (counted old) ≡ b.started + one_if (counted next)
      → finished + one_if (done old) ≡ b.finished + one_if (done next)
      → Kept n record {
        expected = b.expected;
        started = started;
        finished = finished;
        closed = closed;
        contract_violated = violated;
        run_started = run_started;
        first_exception = first;
        calls = set b.calls i record { task = task; phase = next };
      }
  Kept-move task old next started finished closed violated run_started first e size claim count
        end =
      let from : Call = record { task = task; phase = old } in
      let to : Call = record { task = task; phase = next } in
      record {
        expected = h.expected;
        tasks = size;
        below = AllBelow-set n b.calls i to h.below (AllBelow-get n b.calls i from h.below e);
        claimed = λ k.
            omega
              (arith, claim k, h.claimed k, tally-set (of_task k claims_call) b.calls i from to e);
        started = omega (arith, count, h.started, tally-set counted_call b.calls i from to e);
        finished = omega (arith, end, h.finished, tally-set done_call b.calls i from to e);
      }

  Kept-refuse :
      (task : ℕ) (old : Phase)
      → get_elem? b.calls i ≡ some record { task = task; phase = old }
      → claims old ≡ false
      → counted old ≡ false
      → done old ≡ false
      → Kept n (violate b i task)
  unfolding violate move
  Kept-refuse task old e c d f =
      Kept-move task old Phase.refused _ _ _ _ _ _ e h.tasks (λ k. ground arith) (ground arith)
        (ground arith)

  Kept-advance :
      (task : ℕ) (phase : Phase)
      → get_elem? b.calls i ≡ some record { task = task; phase = phase }
      → Kept n (advance phase i task exception b)
  unfolding advance move
  Kept-advance task Phase.entering e = elim (Bool-cases b.closed) [
    | inl closed ↦ simp closed (Kept-refuse task Phase.entering e refl refl refl)
    | inr running ↦ simp running (
        Kept-move task Phase.entering Phase.claiming b.started b.finished false b.contract_violated
          b.run_started b.first_exception e h.tasks (λ k. ground arith) (omega arith) (omega arith))
  ]
  Kept-advance task Phase.claiming e = elim (Bool-cases (get_or b.run_started task false)) [
    | inl again ↦ simp again (Kept-refuse task Phase.claiming e refl refl refl)
    | inr first ↦
        let inside : task < n = AllBelow-get n b.calls i _ h.below e in
        simp first (
          Kept-move task Phase.claiming Phase.counting b.started b.finished b.closed
            b.contract_violated (set b.run_started task true) b.first_exception e
            (length-set b.run_started task true ∙ h.tasks) (λ k. claim k inside first) (omega arith)
            (omega arith))
  ]
    where
      claim :
          (k : ℕ)
          → task < n
          → get_or b.run_started task false ≡ false
          → one_if (get_or (set b.run_started task true) k false) + one_if (k == task && false)
            ≡ one_if (get_or b.run_started k false) + one_if (k == task && true)
      claim k inside first = elim (Bool-cases (task == k)) [
        | inl here ↦
            rw (get_or-set b.run_started task k true false (omega (arith, h.tasks)))
              (ground (arith, ap (λ m. get_or b.run_started m false) ((==_iff task k).0 here)))
        | inr there ↦
            rw (get_or-set b.run_started task k true false (omega (arith, h.tasks))) (ground arith)
      ]
  Kept-advance task Phase.counting e =
      Kept-move task Phase.counting Phase.running _ _ _ _ _ _ e h.tasks (λ k. ground arith)
        (omega arith) (omega arith)
  Kept-advance task Phase.running e =
      Kept-move task Phase.running Phase.leaving _ _ _ _ _ _ e h.tasks (λ k. ground arith)
        (omega arith) (omega arith)
  Kept-advance task Phase.leaving e =
      Kept-move task Phase.leaving Phase.returned _ _ _ _ _ _ e h.tasks (λ k. ground arith)
        (omega arith) (omega arith)
  Kept-advance task Phase.returned e = h
  Kept-advance task Phase.refused e = h

Kept-step : (n : ℕ) (b : Batch) (event : Event) → Kept n b → Kept n (step event b)
unfolding step proceed_with
Kept-step n b (Event.invoke task) h = elim (Bool-cases (ltb task b.expected)) [
  | inl inside ↦
      let fresh : Call = record { task = task; phase = Phase.entering } in
      simp inside record {
        expected = h.expected;
        tasks = h.tasks;
        below =
            AllBelow-push_back n b.calls fresh h.below
              (omega (arith, ltb→lt _ _ inside, h.expected));
        claimed = λ k.
            tally-push_back (of_task k claims_call) b.calls fresh ∙ ground (arith, h.claimed k);
        started = omega (arith, h.started, tally-push_back counted_call b.calls fresh);
        finished = omega (arith, h.finished, tally-push_back done_call b.calls fresh);
      }
  | inr outside ↦ simp outside h
]
Kept-step n b (Event.proceed i exception) h = elim (Option-cases (get_elem? b.calls i)) [
  | inl past ↦ simp past h
  | inr (c, found) ↦ simp found (Kept-advance n b h i exception c.task c.phase found)
]
Kept-step n b Event.close h = record {
  expected = h.expected;
  tasks = h.tasks;
  below = h.below;
  claimed = h.claimed;
  started = h.started;
  finished = h.finished;
}

Kept-run : (n : ℕ) (events : List Event) (b : Batch) → Kept n b → Kept n (run events b)
unfolding run
Kept-run n [] b h = h
Kept-run n (event ∷ events) b h = Kept-run n events (step event b) (Kept-step n b event h)

-- A call that has returned holds the claim.
done-claims :
    (task : ℕ) (cs : List Call)
    → tally (of_task task done_call) cs ≤ tally (of_task task claims_call) cs
done-claims task [] = omega arith
done-claims task (c ∷ cs) = omega (arith, done-claims task cs, one c.phase)
  where
    one : (p : Phase) → one_if (task == c.task && done p) ≤ one_if (task == c.task && claims p)
    one Phase.entering = ground arith
    one Phase.claiming = ground arith
    one Phase.counting = ground arith
    one Phase.running = ground arith
    one Phase.leaving = ground arith
    one Phase.returned = ground arith
    one Phase.refused = ground arith

accepted-finished :
    (first second third : List Event) (b : Batch)
    → close_and_validate first second third b ≡ ok tt
    → (after_close first second third b).finished ≡ b.expected
unfolding close_and_validate
accepted-finished first second third b accepted =
    elim (Bool-cases (run first (step Event.close b)).contract_violated) [
      | inl bad ↦ absurd (ground (arith, accepted, bad))
      | inr fine ↦ ground arith
    ]

at_most : (n : ℕ) (b : Batch) → Kept n b → (i : ℕ) → tally (of_task i done_call) b.calls ≤ 1
at_most n b kept i = ground (arith, done-claims i b.calls, kept.claimed i)

-- Whatever calls of its `n` tasks the executor makes and however they interleave with each other:
-- no task is run to its end twice.
pub run-once :
    (n : ℕ) (events : List Event) (task : ℕ)
    → tally (of_task task done_call) (run events (new n)).calls ≤ 1
run-once n events = at_most n (run events (new n)) (Kept-run n events (new n) (Kept-new n))

-- Whatever calls of its `n` tasks the executor makes and however they interleave with each other
-- and with the closing of the batch: where `close_and_validate_job_task_batch` returns, each task
-- was run to its end by exactly one call.
pub close-once :
    (n : ℕ) (events first second third : List Event) (task : ℕ)
    → task < n
    → close_and_validate first second third (run events (new n)) ≡ ok tt
    → tally (of_task task done_call) (after_close first second third (run events (new n))).calls ≡ 1
unfolding after_close
close-once n events first second third task lt accepted =
    let before : Kept n (run events (new n)) = Kept-run n events (new n) (Kept-new n) in
    let closed : Kept n (step Event.close (run events (new n))) =
      Kept-step n (run events (new n)) Event.close before in
    let kept : Kept n (run third (run second (run first (step Event.close (run events (new n)))))) =
      Kept-run n third _ (Kept-run n second _ (Kept-run n first _ closed)) in
    total-each done_call _ n task (at_most n _ kept)
      (total-tally done_call _ n kept.below
        ∙ omega (
          arith,
          kept.finished,
          before.expected,
          accepted-finished first second third (run events (new n)) accepted,
        ))
      lt
