-- ===== src/Jobs/Schedule.antt =====
-- `Orchestrator::build_schedule` of src/jobs.cpp: the jobs, in their order, go into the earliest
-- stage that comes after all those they depend on. The maps from a component to a stage are
-- functions. The order itself (`std::sort` in `schedule_for_jobs`) is given.
pub mod Order
pub mod Stages
use ashiato.Base.{
  ℕ, ◌+◌, max, Bool, true, false, ◌==◌, leb, if◌then◌else◌, List, [], ◌∷◌, length, get_or, set,
  push_back, resize, Option, some, none,
}
use ashiato.EntityStore.{Entity}

-- What the scheduler reads of a `JobRecord`.
pub record Job : Type 0 where
  pub entity : Entity
  pub reads : List ℕ
  pub writes : List ℕ
  pub structural : Bool

abbrev pub StageMap : Type 0
StageMap = ℕ → Option ℕ

abbrev pub update : StageMap → ℕ → ℕ → StageMap
update m component stage c = if c == component then some stage else m c

-- The local variables of `build_schedule`; `stages` is `result.stages`.
pub record Plan : Type 0 where
  pub stages : List (List Entity)
  pub last_reader_stage : StageMap
  pub last_writer_stage : StageMap
  pub latest_stage : ℕ
  pub structural_barrier_stage : ℕ
  pub has_previous_job : Bool
  pub has_structural_barrier : Bool

-- `stage_index = max(stage_index, found->second + 1)` where the component is found.
unfoldable pub after_found : Option ℕ → ℕ → ℕ
after_found none stage_index = stage_index
after_found (some stage) stage_index = max stage_index (stage + 1)

unfoldable pub apply_read_dependencies : List ℕ → StageMap → ℕ → ℕ
apply_read_dependencies [] last_writer_stage stage_index = stage_index
apply_read_dependencies (component ∷ rest) last_writer_stage stage_index =
    apply_read_dependencies rest last_writer_stage
      (after_found (last_writer_stage component) stage_index)

unfoldable pub apply_write_dependencies : List ℕ → StageMap → StageMap → ℕ → ℕ
apply_write_dependencies [] last_reader_stage last_writer_stage stage_index = stage_index
apply_write_dependencies (component ∷ rest) last_reader_stage last_writer_stage stage_index =
    apply_write_dependencies rest last_reader_stage last_writer_stage (
      after_found (last_writer_stage component)
        (after_found (last_reader_stage component) stage_index))

-- `emplace`, and the maximum where the component is there.
unfoldable pub joined_stage : Option ℕ → ℕ → ℕ
joined_stage none stage_index = stage_index
joined_stage (some stage) stage_index = max stage stage_index

unfoldable pub record_read_stage : List ℕ → StageMap → ℕ → StageMap
record_read_stage [] last_reader_stage stage_index = last_reader_stage
record_read_stage (component ∷ rest) last_reader_stage stage_index =
    record_read_stage rest
      (update last_reader_stage component (joined_stage (last_reader_stage component) stage_index))
      stage_index

unfoldable pub record_write_stage : List ℕ → StageMap → ℕ → StageMap
record_write_stage [] last_writer_stage stage_index = last_writer_stage
record_write_stage (component ∷ rest) last_writer_stage stage_index =
    record_write_stage rest (update last_writer_stage component stage_index) stage_index

-- The stage that a job goes into.
unfoldable pub stage_of : Job → Plan → ℕ
stage_of job p =
    let first = if p.has_structural_barrier then p.structural_barrier_stage + 1 else 0 in
    if job.structural
    then (if p.has_previous_job then p.latest_stage + 1 else 0)
    else apply_write_dependencies job.writes p.last_reader_stage p.last_writer_stage
        (apply_read_dependencies job.reads p.last_writer_stage first)

-- `result.stages.resize(stage_index + 1)` where it is too short, and the push.
unfoldable pub push_job : List (List Entity) → ℕ → Entity → List (List Entity)
push_job stages stage_index entity =
    let wide =
      if leb (length stages) stage_index then resize stages (stage_index + 1) [] else stages in
    set wide stage_index (push_back (get_or wide stage_index []) entity)

-- One round of the loop.
unfoldable pub place : Job → Plan → Plan
place job p = record {
  stages = push_job p.stages (stage_of job p) job.entity;
  last_reader_stage =
      if job.structural
      then p.last_reader_stage
      else record_read_stage job.reads p.last_reader_stage (stage_of job p);
  last_writer_stage =
      if job.structural
      then p.last_writer_stage
      else record_write_stage job.writes p.last_writer_stage (stage_of job p);
  latest_stage = if p.has_previous_job then max p.latest_stage (stage_of job p) else stage_of job p;
  structural_barrier_stage = if job.structural then stage_of job p else p.structural_barrier_stage;
  has_previous_job = true;
  has_structural_barrier = if job.structural then true else p.has_structural_barrier;
}

abbrev pub no_jobs : Plan
no_jobs = record {
  stages = [];
  last_reader_stage = λ c. none;
  last_writer_stage = λ c. none;
  latest_stage = 0;
  structural_barrier_stage = 0;
  has_previous_job = false;
  has_structural_barrier = false;
}

unfoldable pub place_all : List Job → Plan → Plan
place_all [] p = p
place_all (job ∷ jobs) p = place_all jobs (place job p)

unfoldable pub build_schedule : List Job → List (List Entity)
build_schedule jobs = (place_all jobs no_jobs).stages
