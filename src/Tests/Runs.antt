-- ===== src/Tests/Runs.antt =====
-- The theorems on jobs, deferred writes and bit buffers at concrete inputs.
use ashiato.Base.{
  ℕ, zero, suc, ◌<◌, ◌≤◌, ◌≡◌, refl, true, false, List, [], ◌∷◌, ◌++◌, length, map, get_or, arith,
  some, none, ok,
}
use ashiato.Jobs.Schedule.{Job, no_jobs, place_all, stage_of, build_schedule}
use ashiato.Jobs.Schedule.Order.{Conflict, Conflict-later}
use ashiato.Jobs.Schedule.Stages.{in_stage, build_schedule-stages}
use ashiato.Jobs.Ranges.{InBounds, task_ranges, visited, task_ranges-cover}
use ashiato.Jobs.Batch.{
  Event, Batch, Phase, run, after_close, close_and_validate, violate, move, advance, proceed_with,
  step, record_job_task_exception,
}
use ashiato.Jobs.Batch as B
use ashiato.Jobs.Batch.Calls.{tally, of_task}
use ashiato.Jobs.Batch.Contract.{done_call, run-once, close-once}
use ashiato.Storage.{Storage, Info}
use ashiato.Jobs.Batch.Sequential.{first_tasks, first_tasks-close}
use ashiato.Storage as S
use ashiato.Storage.Deferred.{ThreadState, enter_scope, leave_scope}
use ashiato.Storage.Laws.Merge.{write_all, merge_deferred_dirty_writes, merge-deferred}
use ashiato.BitBuffer.{BitBuffer, remaining_bits}
use ashiato.BitBuffer.Write.{write_bool, write_buffer_bits}
use ashiato.BitBuffer.Read.{advanced}
use ashiato.BitBuffer.Bits.{IsValid, Wrote, write_bool_lem}
use ashiato.BitBuffer.RoundTrip.{write_bools, read_bools, write_bools-read_bools}
use ashiato.BitBuffer.Append.{Copied, write_buffer_bits_lem}

-- One job writes component 5, the other reads it.
abbrev writer : Job
writer = record { entity = record { value = 1 }; reads = []; writes = 5 ∷ []; structural = false }

abbrev reader : Job
reader = record { entity = record { value = 2 }; reads = 5 ∷ []; writes = []; structural = false }

Conflict-later_example :
    stage_of writer (place_all [] no_jobs)
    < stage_of reader (place_all ([] ++ writer ∷ reader ∷ []) no_jobs)
Conflict-later_example =
    Conflict-later [] (reader ∷ []) writer reader (Conflict.write_read 5 refl refl)

build_schedule-stages_example :
    get_or (build_schedule (writer ∷ reader ∷ [])) 1 [] ≡ in_stage 1 (writer ∷ reader ∷ []) no_jobs
build_schedule-stages_example = build_schedule-stages (writer ∷ reader ∷ []) 1

task_ranges-cover_example :
    (visited {A = ℕ} (7 ∷ 8 ∷ 9 ∷ []) (task_ranges 3 1 2) ≡ map some (7 ∷ 8 ∷ 9 ∷ []))
    × InBounds 3 (task_ranges 3 1 2)
    × (0 < length (task_ranges 3 1 2))
    × (length (task_ranges 3 1 2) ≤ 2)
task_ranges-cover_example = task_ranges-cover (7 ∷ 8 ∷ 9 ∷ []) 1 2 (omega arith)

-- Two tasks, the calls of which interleave; the second throws.
abbrev two_calls : List Event
two_calls =
    Event.invoke 0
    ∷ Event.invoke 1
    ∷ Event.proceed 0 none
    ∷ Event.proceed 1 none
    ∷ Event.proceed 1 none
    ∷ Event.proceed 0 none
    ∷ Event.proceed 0 none
    ∷ Event.proceed 0 none
    ∷ Event.proceed 1 none
    ∷ Event.proceed 1 (some 4)
    ∷ Event.proceed 1 none
    ∷ Event.proceed 0 none
    ∷ []

run-once_example : tally (of_task 1 done_call) (run two_calls (B.new 2)).calls ≤ 1
run-once_example = run-once 2 two_calls 1

two_calls-accepted : close_and_validate [] [] [] (run two_calls (B.new 2)) ≡ ok tt
unfolding close_and_validate after_close run step proceed_with advance violate move
    record_job_task_exception
two_calls-accepted = refl

close-once_example :
    tally (of_task 1 done_call) (after_close [] [] [] (run two_calls (B.new 2))).calls ≡ 1
close-once_example = close-once 2 two_calls [] [] [] 1 (omega arith) two_calls-accepted

first_tasks-close_example :
    close_and_validate [] [] [] (first_tasks (λ k. some k) 3 (B.new 3)) ≡ ok tt
first_tasks-close_example = first_tasks-close 3 (λ k. some k)

abbrev plain : Info
plain = record { tag = false; trivially_copyable = true; copyable = true }

-- Indices 0 and 4
abbrev stored : Storage ℕ
stored = record {
  dense_indices = 0 ∷ 4 ∷ [];
  sparse = 0 ∷ S.npos ∷ S.npos ∷ S.npos ∷ 1 ∷ [];
  dirty = 0 ∷ 0 ∷ [];
  added = 0 ∷ 0 ∷ [];
  tombstones = [];
  tombstone_indices = [];
  tombstone_positions = [];
  tombstone_entities = [];
  values = 7 ∷ 8 ∷ [];
  size = 2;
  capacity = 2;
  dirty_count = 0;
  added_count = 0;
  tombstone_count = 0;
  compact_lookup = false;
  info = plain;
}

abbrev no_deferral : ThreadState
no_deferral = record { deferred_dirty_writes = none; defer_range_dirty = false }

merge-deferred_example :
    let (saved, inner) = enter_scope true no_deferral in
    let (t, s') = write_all 3 (0 ∷ 4 ∷ []) inner stored in
    let (ws, after) = leave_scope saved t in
    (merge_deferred_dirty_writes 3 ws s'
      ≡ (write_all 3
          (0 ∷ 4 ∷ [])
          (record { deferred_dirty_writes = none; defer_range_dirty = true })
          stored).1)
    × (after ≡ no_deferral)
merge-deferred_example = merge-deferred 3 (0 ∷ 4 ∷ []) true no_deferral stored

-- One bit, which was read.
abbrev one_bit : BitBuffer
one_bit = record { bytes = 1 ∷ []; bit_size = 1; read_bit = 1 }

one_bit-byte : (i : ℕ) → get_or (1 ∷ []) i 0 < 256
one_bit-byte zero = omega arith
one_bit-byte (suc i) = omega arith

one_bit-IsValid : IsValid one_bit
one_bit-IsValid = record { size = omega arith; byte = one_bit-byte; reads = omega arith }

write_bool_lem_example : Wrote one_bit true (write_bool one_bit true)
write_bool_lem_example = write_bool_lem one_bit true one_bit-IsValid

write_bools-read_bools_example :
    (read_bools 2 (write_bools one_bit (true ∷ false ∷ []))
      ≡ ok (true ∷ false ∷ [], advanced (write_bools one_bit (true ∷ false ∷ [])) 2))
    × (remaining_bits (advanced (write_bools one_bit (true ∷ false ∷ [])) 2) ≡ 0)
    × IsValid (advanced (write_bools one_bit (true ∷ false ∷ [])) 2)
write_bools-read_bools_example =
    write_bools-read_bools one_bit (true ∷ false ∷ []) one_bit-IsValid refl

write_buffer_bits_lem_example : Copied one_bit (1 ∷ []) 0 1 (write_buffer_bits one_bit one_bit)
write_buffer_bits_lem_example =
    write_buffer_bits_lem one_bit one_bit one_bit-IsValid one_bit-IsValid
