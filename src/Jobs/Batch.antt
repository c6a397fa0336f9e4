-- ===== src/Jobs/Batch.antt =====
-- The guarded tasks of src/jobs.cpp: `JobTaskBatchState`, `make_guarded_job_task` and
-- `close_and_validate_job_task_batch`. The executor calls the tasks as often, from as many threads
-- and in what order it likes; a call goes on by one atomic operation at a time. A run is a sequence
-- of such steps.
pub mod Calls
pub mod Contract
pub mod Sequential
use ashiato.Base.{
  ℕ, zero, suc, ◌+◌, Bool, true, false, not, ◌||◌, ◌&&◌, ◌==◌, ltb, if◌then◌else◌, List, [], ◌∷◌,
  length, get_or, get_elem?, set, push_back, replicate, Option, some, none, Error, Result, ok, err,
  throw_if, ◌>>◌,
}

-- Where a call of `task.run` stands: before the load of `closed`, before the exchange of
-- `run_state->started`, before `fetch_add` on `started`, in the task, before `fetch_add` on
-- `finished`, after it; or it has thrown.
pub data Phase : Type 0 where
  entering claiming counting running leaving returned refused : Phase

pub record Call : Type 0 where
  pub task : ℕ
  pub phase : Phase

-- The batch, the `started` of the run states of its tasks, the first exception (a number stands for
-- it) and the calls that were made.
pub record Batch : Type 0 where
  pub expected : ℕ
  pub started : ℕ
  pub finished : ℕ
  pub closed : Bool
  pub contract_violated : Bool
  pub run_started : List Bool
  pub first_exception : Option ℕ
  pub calls : List Call

abbrev pub new : ℕ → Batch
new n = record {
  expected = n;
  started = 0;
  finished = 0;
  closed = false;
  contract_violated = false;
  run_started = replicate n false;
  first_exception = none;
  calls = [];
}

-- `record_job_task_exception`, where the task throws
unfoldable pub record_job_task_exception : Option ℕ → Option ℕ → Option ℕ
record_job_task_exception none first_exception = first_exception
record_job_task_exception (some exception) none = some exception
record_job_task_exception (some exception) (some first) = some first

-- The call with this number goes on to a phase.
unfoldable pub move : Batch → ℕ → ℕ → Phase → List Call
move b n task phase = set b.calls n record { task = task; phase = phase }

-- `throw_job_executor_contract_violation` in this call
unfoldable pub violate : Batch → ℕ → ℕ → Batch
violate b n task = record {
  expected = b.expected;
  started = b.started;
  finished = b.finished;
  closed = b.closed;
  contract_violated = true;
  run_started = b.run_started;
  first_exception = b.first_exception;
  calls = move b n task Phase.refused;
}

-- The next atomic operation of call `n`, which stands at this phase in this task. `exception` is
-- what the task throws, where it does.
unfoldable pub advance : Phase → ℕ → ℕ → Option ℕ → Batch → Batch
advance Phase.entering n task exception b = if b.closed then violate b n task else record {
  expected = b.expected;
  started = b.started;
  finished = b.finished;
  closed = b.closed;
  contract_violated = b.contract_violated;
  run_started = b.run_started;
  first_exception = b.first_exception;
  calls = move b n task Phase.claiming;
}
advance Phase.claiming n task exception b =
    if get_or b.run_started task false then violate b n task else record {
      expected = b.expected;
      started = b.started;
      finished = b.finished;
      closed = b.closed;
      contract_violated = b.contract_violated;
      run_started = set b.run_started task true;
      first_exception = b.first_exception;
      calls = move b n task Phase.counting;
    }
advance Phase.counting n task exception b = record {
  expected = b.expected;
  started = b.started + 1;
  finished = b.finished;
  closed = b.closed;
  contract_violated = b.contract_violated;
  run_started = b.run_started;
  first_exception = b.first_exception;
  calls = move b n task Phase.running;
}
advance Phase.running n task exception b = record {
  expected = b.expected;
  started = b.started;
  finished = b.finished;
  closed = b.closed;
  contract_violated = b.contract_violated;
  run_started = b.run_started;
  first_exception = record_job_task_exception exception b.first_exception;
  calls = move b n task Phase.leaving;
}
advance Phase.leaving n task exception b = record {
  expected = b.expected;
  started = b.started;
  finished = b.finished + 1;
  closed = b.closed;
  contract_violated = b.contract_violated;
  run_started = b.run_started;
  first_exception = b.first_exception;
  calls = move b n task Phase.returned;
}
advance Phase.returned n task exception b = b
advance Phase.refused n task exception b = b

-- What happens: the executor calls a task, a call goes on, or the batch is closed.
pub data Event : Type 0 where
  invoke : ℕ → Event
  proceed : ℕ → Option ℕ → Event
  close : Event

unfoldable pub proceed_with : Option Call → ℕ → Option ℕ → Batch → Batch
proceed_with none n exception b = b
proceed_with (some c) n exception b = advance c.phase n c.task exception b

-- There are as many tasks as expected, so no other is called.
unfoldable pub step : Event → Batch → Batch
step (Event.invoke task) b =
    if ltb task b.expected
    then record {
      expected = b.expected;
      started = b.started;
      finished = b.finished;
      closed = b.closed;
      contract_violated = b.contract_violated;
      run_started = b.run_started;
      first_exception = b.first_exception;
      calls = push_back b.calls (record { task = task; phase = Phase.entering });
    }
    else b
step (Event.proceed n exception) b = proceed_with (get_elem? b.calls n) n exception b
step Event.close b = record {
  expected = b.expected;
  started = b.started;
  finished = b.finished;
  closed = true;
  contract_violated = b.contract_violated;
  run_started = b.run_started;
  first_exception = b.first_exception;
  calls = b.calls;
}

unfoldable pub run : List Event → Batch → Batch
run [] b = b
run (event ∷ events) b = run events (step event b)

-- `close_and_validate_job_task_batch`: it stores `closed`, and loads `contract_violated`, `started`
-- and `finished`. What happens before each of the three loads is given.
unfoldable pub after_close : List Event → List Event → List Event → Batch → Batch
after_close first second third b = run third (run second (run first (step Event.close b)))

unfoldable pub close_and_validate : List Event → List Event → List Event → Batch → Result (Unit {0})
close_and_validate first second third b =
    let violated = (run first (step Event.close b)).contract_violated in
    let started = (run second (run first (step Event.close b))).started in
    let finished = (after_close first second third b).finished in
    throw_if violated Error.logic_error
    >> throw_if (not (started == b.expected) || not (finished == b.expected)) Error.logic_error
