-- ===== src/Jobs/Schedule/Order.antt =====
-- Jobs that depend on one another are never in one stage: the later one is in a later stage.
use ashiato.Base.{
  ℕ, ◌+◌, ◌<◌, ◌≤◌, ◌≡◌, refl, true, false, ◌==◌, if◌then◌else◌, List, [], ◌∷◌, ◌++◌, arith, elem,
  Option, some, none, Bool-cases, inl, inr, ◌⊎◌, ==_iff,
}
use mathlib.Core.Path.{subst}
use ashiato.Jobs.Schedule.{
  Job, Plan, StageMap, update, after_found, apply_read_dependencies, apply_write_dependencies,
  joined_stage, record_read_stage, record_write_stage, stage_of, place, place_all, no_jobs,
}

-- One of the two is structural, or they share a component that one of them writes.
pub data Conflict (a b : Job) : Type 0 where
  structural_first : a.structural ≡ true → Conflict a b
  structural_second : b.structural ≡ true → Conflict a b
  write_write : (c : ℕ) → elem c a.writes ≡ true → elem c b.writes ≡ true → Conflict a b
  write_read : (c : ℕ) → elem c a.writes ≡ true → elem c b.reads ≡ true → Conflict a b
  read_write : (c : ℕ) → elem c a.reads ≡ true → elem c b.writes ≡ true → Conflict a b

-- The map has the component at this stage or a later one.
abbrev AtLeast : Option ℕ → ℕ → Type 0
AtLeast none k = ⊥
AtLeast (some stage) k = k ≤ stage

le-after_found : (o : Option ℕ) (n : ℕ) → n ≤ after_found o n
unfolding after_found
le-after_found none n = omega arith
le-after_found (some s) n = omega arith

lt-after_found : (o : Option ℕ) (n k : ℕ) → AtLeast o k → k < after_found o n
unfolding after_found
lt-after_found none n k h = absurd h
lt-after_found (some s) n k h = omega arith

le-apply_read : (cs : List ℕ) (m : StageMap) (n : ℕ) → n ≤ apply_read_dependencies cs m n
unfolding apply_read_dependencies
le-apply_read [] m n = omega arith
le-apply_read (c ∷ cs) m n =
    omega (arith, le-after_found (m c) n, le-apply_read cs m (after_found (m c) n))

le-apply_write : (cs : List ℕ) (r w : StageMap) (n : ℕ) → n ≤ apply_write_dependencies cs r w n
unfolding apply_write_dependencies
le-apply_write [] r w n = omega arith
le-apply_write (c ∷ cs) r w n = omega (
  arith,
  le-after_found (r c) n,
  le-after_found (w c) (after_found (r c) n),
  le-apply_write cs r w (after_found (w c) (after_found (r c) n)),
)

same_key : (m : StageMap) (c d k : ℕ) → (c == d) ≡ true → AtLeast (m c) k → AtLeast (m d) k
same_key m c d k e h = subst (λ x. AtLeast (m x) k) ((==_iff c d).0 e) h

-- A job that reads a component comes after its last writer.
lt-apply_read :
    (cs : List ℕ) (m : StageMap) (n c k : ℕ)
    → elem c cs ≡ true
    → AtLeast (m c) k
    → k < apply_read_dependencies cs m n
unfolding apply_read_dependencies
lt-apply_read [] m n c k e h = absurd (ground arith)
lt-apply_read (d ∷ cs) m n c k e h = elim (Bool-cases (c == d)) [
  | inl same ↦ omega (
    arith,
    lt-after_found (m d) n k (same_key m c d k same h),
    le-apply_read cs m (after_found (m d) n),
  )
  | inr other ↦ lt-apply_read cs m (after_found (m d) n) c k (ground arith) h
]

-- A job that writes a component comes after its last reader and its last writer.
lt-apply_write :
    (cs : List ℕ) (r w : StageMap) (n c k : ℕ)
    → elem c cs ≡ true
    → AtLeast (r c) k ⊎ AtLeast (w c) k
    → k < apply_write_dependencies cs r w n
unfolding apply_write_dependencies
lt-apply_write [] r w n c k e h = absurd (ground arith)
lt-apply_write (d ∷ cs) r w n c k e h = elim (Bool-cases (c == d)) [
  | inl same ↦ elim h [
    | inl read ↦ omega (
      arith,
      lt-after_found (r d) n k (same_key r c d k same read),
      le-after_found (w d) (after_found (r d) n),
      le-apply_write cs r w (after_found (w d) (after_found (r d) n)),
    )
    | inr written ↦ omega (
      arith,
      lt-after_found (w d) (after_found (r d) n) k (same_key w c d k same written),
      le-apply_write cs r w (after_found (w d) (after_found (r d) n)),
    )
  ]
  | inr other ↦ lt-apply_write cs r w (after_found (w d) (after_found (r d) n)) c k (ground arith) h
]

le-joined : (o : Option ℕ) (n k : ℕ) → AtLeast o k → k ≤ joined_stage o n
unfolding joined_stage
le-joined none n k h = absurd h
le-joined (some s) n k h = omega arith

joined-le : (o : Option ℕ) (n : ℕ) → n ≤ joined_stage o n
unfolding joined_stage
joined-le none n = omega arith
joined-le (some s) n = omega arith

-- Recording the readers of a stage forgets no earlier reader, and knows the new ones.
read_stage-keeps :
    (cs : List ℕ) (m : StageMap) (n c k : ℕ)
    → AtLeast (m c) k
    → AtLeast (record_read_stage cs m n c) k
unfolding record_read_stage
read_stage-keeps [] m n c k h = h
read_stage-keeps (d ∷ cs) m n c k h = read_stage-keeps cs m' n c k kept
  where
    m' : StageMap
    m' = update m d (joined_stage (m d) n)

    kept : AtLeast (m' c) k
    kept = elim (Bool-cases (c == d)) [
      | inl same ↦ simp same (le-joined (m d) n k (same_key m c d k same h))
      | inr other ↦ simp other h
    ]

read_stage-new :
    (cs : List ℕ) (m : StageMap) (n c : ℕ)
    → elem c cs ≡ true
    → AtLeast (record_read_stage cs m n c) n
unfolding record_read_stage
read_stage-new [] m n c e = absurd (ground arith)
read_stage-new (d ∷ cs) m n c e = elim (Bool-cases (c == d)) [
  | inl same ↦
      read_stage-keeps cs (update m d (joined_stage (m d) n)) n c n (simp same (joined-le (m d) n))
  | inr other ↦ read_stage-new cs (update m d (joined_stage (m d) n)) n c (ground arith)
]

-- Recording the writers replaces a stage, which is no loss where the new one is later.
write_stage-keeps :
    (cs : List ℕ) (m : StageMap) (n c k : ℕ)
    → AtLeast (m c) k
    → (elem c cs ≡ true → k ≤ n)
    → AtLeast (record_write_stage cs m n c) k
unfolding record_write_stage
write_stage-keeps [] m n c k h b = h
write_stage-keeps (d ∷ cs) m n c k h b = elim (Bool-cases (c == d)) [
  | inl same ↦
      write_stage-keeps cs (update m d n) n c k (simp same (b (ground arith)))
        (λ e. b (ground arith))
  | inr other ↦ write_stage-keeps cs (update m d n) n c k (simp other h) (λ e. b (ground arith))
]

write_stage-new :
    (cs : List ℕ) (m : StageMap) (n c : ℕ)
    → elem c cs ≡ true
    → AtLeast (record_write_stage cs m n c) n
unfolding record_write_stage
write_stage-new [] m n c e = absurd (ground arith)
write_stage-new (d ∷ cs) m n c e = elim (Bool-cases (c == d)) [
  | inl same ↦
      write_stage-keeps cs (update m d n) n c n (simp same (omega arith)) (λ _. omega arith)
  | inr other ↦ write_stage-new cs (update m d n) n c (ground arith)
]

-- The plan knows that `a` stands in stage `k`.
record Knows (a : Job) (k : ℕ) (p : Plan) : Type 0 where
  started : p.has_previous_job ≡ true
  latest : k ≤ p.latest_stage
  barrier :
      a.structural ≡ true → (p.has_structural_barrier ≡ true) × (k ≤ p.structural_barrier_stage)
  readers :
      a.structural ≡ false → (c : ℕ) → elem c a.reads ≡ true → AtLeast (p.last_reader_stage c) k
  writers :
      a.structural ≡ false → (c : ℕ) → elem c a.writes ≡ true → AtLeast (p.last_writer_stage c) k

-- The barrier lies at or before the latest stage, and not before any job.
le-first :
    (b : Job) (p : Plan)
    → b.structural ≡ false
    → p.has_structural_barrier ≡ true
    → p.structural_barrier_stage < stage_of b p
unfolding stage_of
le-first b p plain barrier =
    simp (plain, barrier)
      (omega (
        arith,
        le-apply_read b.reads p.last_writer_stage (p.structural_barrier_stage + 1),
        le-apply_write b.writes p.last_reader_stage p.last_writer_stage
            (apply_read_dependencies b.reads p.last_writer_stage (p.structural_barrier_stage + 1)),
      ))

-- A job that conflicts with `a` goes into a later stage than `a`.
Knows-lt : (a b : Job) (k : ℕ) (p : Plan) → Knows a k p → Conflict a b → k < stage_of b p
unfolding stage_of
Knows-lt a b k p h c = elim (Bool-cases b.structural) [
  | inl sb ↦ simp (sb, h.started) (omega (arith, h.latest))
  | inr nb ↦ elim (Bool-cases a.structural) [
    | inl sa ↦ unfold stage_of in omega (arith, le-first b p nb (h.barrier sa).0, (h.barrier sa).1)
    | inr na ↦ simp nb (shared nb na c)
  ]
]
  where
    first : ℕ
    first = if p.has_structural_barrier then p.structural_barrier_stage + 1 else 0

    shared :
        b.structural ≡ false
        → a.structural ≡ false
        → Conflict a b
        → k
          < apply_write_dependencies b.writes p.last_reader_stage p.last_writer_stage
              (apply_read_dependencies b.reads p.last_writer_stage first)
    shared nb na (structural_first e) = cc
    shared nb na (structural_second e) = cc
    shared nb na (write_write c ha hb) =
        lt-apply_write b.writes _ _ _ c k hb (inr (h.writers na c ha))
    shared nb na (read_write c ha hb) =
        lt-apply_write b.writes _ _ _ c k hb (inl (h.readers na c ha))
    shared nb na (write_read c ha hb) = omega (
      arith,
      lt-apply_read b.reads p.last_writer_stage first c k hb (h.writers na c ha),
      le-apply_write b.writes p.last_reader_stage p.last_writer_stage
          (apply_read_dependencies b.reads p.last_writer_stage first),
    )

Knows-place : (a b : Job) (k : ℕ) (p : Plan) → Knows a k p → Knows a k (place b p)
unfolding place
Knows-place a b k p h = record {
  started = refl;
  latest = simp h.started (omega (arith, h.latest));
  barrier = λ sa. elim (Bool-cases b.structural) [
    | inl sb ↦ simp sb (refl, omega (arith, Knows-lt a b k p h (structural_second sb)))
    | inr nb ↦ simp nb (h.barrier sa)
  ];
  readers = λ na c e. elim (Bool-cases b.structural) [
    | inl sb ↦ simp sb (h.readers na c e)
    | inr nb ↦
        simp nb (read_stage-keeps b.reads p.last_reader_stage (stage_of b p) c k (h.readers na c e))
  ];
  writers = λ na c e. elim (Bool-cases b.structural) [
    | inl sb ↦ simp sb (h.writers na c e)
    | inr nb ↦ simp nb (
        write_stage-keeps b.writes p.last_writer_stage (stage_of b p) c k (h.writers na c e)
          (λ eb. omega (arith, Knows-lt a b k p h (write_write c e eb))))
  ];
}

Knows-new : (a : Job) (p : Plan) → Knows a (stage_of a p) (place a p)
unfolding place
Knows-new a p = record {
  started = refl;
  latest = ground arith;
  barrier = λ sa. simp sa (refl, omega arith);
  readers = λ na c e. simp na (read_stage-new a.reads p.last_reader_stage (stage_of a p) c e);
  writers = λ na c e. simp na (write_stage-new a.writes p.last_writer_stage (stage_of a p) c e);
}

Knows-place_all :
    (a : Job) (k : ℕ) (jobs : List Job) (p : Plan) → Knows a k p → Knows a k (place_all jobs p)
unfolding place_all
Knows-place_all a k [] p h = h
Knows-place_all a k (b ∷ bs) p h = Knows-place_all a k bs (place b p) (Knows-place a b k p h)

place_all-append :
    (js ks : List Job) (p : Plan) → place_all (js ++ ks) p ≡ place_all ks (place_all js p)
unfolding place_all
place_all-append [] ks p = refl
place_all-append (j ∷ js) ks p = place_all-append js ks (place j p)

-- Of two jobs that conflict, because one is structural or one writes a component that the other
-- reads or writes, the one that comes later in the order goes into a later stage.
pub Conflict-later :
    (before between : List Job) (a b : Job)
    → Conflict a b
    → stage_of a (place_all before no_jobs) < stage_of b (place_all (before ++ a ∷ between) no_jobs)
unfolding place_all
Conflict-later before between a b c =
    let p = place_all before no_jobs in
    rw (place_all-append before (a ∷ between) no_jobs) (
      Knows-lt a b (stage_of a p) (place_all between (place a p))
        (Knows-place_all a (stage_of a p) between (place a p) (Knows-new a p)) c)
