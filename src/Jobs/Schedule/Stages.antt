-- ===== src/Jobs/Schedule/Stages.antt =====
-- What stands in the stages that `build_schedule` returns.
use ashiato.Base.{
  ℕ, ◌+◌, ◌≤◌, ◌≡◌, refl, ◌∙◌, ◌==◌, leb, ltb, if◌then◌else◌, List, [], ◌∷◌, ◌++◌, arith, length,
  get_or, push_back, resize, length-resize, Bool-cases, inl, inr, ==_iff, ltb→lt, ltb→le,
}
use mathlib.Core.List.{append_assoc, append-nil}
use ashiato.Base.Reads.{get_or-set, get_or-resize, get_or-past}
use ashiato.EntityStore.{Entity}
use ashiato.Jobs.Schedule.{Job, Plan, stage_of, push_job, place, place_all, no_jobs, build_schedule}

-- The entities of the jobs that go into stage `k`, in their order.
pub in_stage : ℕ → List Job → Plan → List Entity
in_stage k [] p = []
in_stage k (job ∷ jobs) p =
    let rest = in_stage k jobs (place job p) in
    if stage_of job p == k then job.entity ∷ rest else rest

-- Growing the vector of the stages by empty ones changes no stage.
get_or-wide :
    (stages : List (List Entity)) (n k : ℕ)
    → length stages ≤ n
    → get_or (resize stages n []) k [] ≡ get_or stages k []
get_or-wide stages n k h = elim (Bool-cases (ltb k n)) [
  | inl inside ↦
      get_or-resize stages n [] k [] (ltb→lt _ _ inside)
      ∙ elim (Bool-cases (ltb k (length stages))) [
        | inl old ↦ rw old
        | inr new ↦ rw (new, get_or-past stages k [] (ltb→le _ _ new))
      ]
  | inr outside ↦ rw (
    get_or-past (resize stages n []) k [] (rw (length-resize stages n []) (ltb→le _ _ outside)),
    get_or-past stages k [] (omega (arith, ltb→le _ _ outside)),
  )
]

get_or-push_job :
    (stages : List (List Entity)) (n k : ℕ) (e : Entity)
    → get_or (push_job stages n e) k []
      ≡ (if n == k then push_back (get_or stages n []) e else get_or stages k [])
unfolding push_job
get_or-push_job stages n k e = elim (Bool-cases (leb (length stages) n)) [
  | inl short ↦ simp short (
      get_or-set (resize stages (n + 1) []) n k _ []
        (rw (length-resize stages (n + 1) []) (omega arith))
      ∙ rw (
        get_or-wide stages (n + 1) n (ground arith),
        get_or-wide stages (n + 1) k (ground arith),
      ))
  | inr wide ↦ simp wide (get_or-set stages n k _ [] (ground arith))
]

push_job-append :
    (stages : List (List Entity)) (n k : ℕ) (e : Entity) (rest : List Entity)
    → get_or (push_job stages n e) k [] ++ rest
      ≡ get_or stages k [] ++ (if n == k then e ∷ rest else rest)
push_job-append stages n k e rest = elim (Bool-cases (n == k)) [
  | inl here ↦
      simp (get_or-push_job stages n k e, here) (simp ((==_iff n k).0 here, append_assoc) refl)
  | inr elsewhere ↦ simp (get_or-push_job stages n k e, elsewhere) refl
]

stages-place :
    (job : Job) (p : Plan) → (place job p).stages ≡ push_job p.stages (stage_of job p) job.entity
unfolding place
stages-place job p = refl

stages-place_all :
    (jobs : List Job) (p : Plan) (k : ℕ)
    → get_or (place_all jobs p).stages k [] ≡ get_or p.stages k [] ++ in_stage k jobs p
unfolding place_all in_stage
stages-place_all [] p k = rw append-nil
stages-place_all (job ∷ jobs) p k =
    stages-place_all jobs (place job p) k
    ∙ simp (stages-place job p)
        (push_job-append p.stages (stage_of job p) k job.entity (in_stage k jobs (place job p)))

-- Every stage of the schedule holds exactly the jobs that were given this stage, each as often as
-- it was given and in the order of the jobs.
pub build_schedule-stages :
    (jobs : List Job) (k : ℕ) → get_or (build_schedule jobs) k [] ≡ in_stage k jobs no_jobs
unfolding build_schedule
build_schedule-stages jobs k = stages-place_all jobs no_jobs k
