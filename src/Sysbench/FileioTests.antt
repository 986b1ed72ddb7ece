-- ===== src/Sysbench/FileioTests.antt =====
-- Runs of the tests and timers at concrete inputs.
use htmsql.Prelude.{
  ℕ, ◌+◌, ◌*◌, ◌%◌, ◌/◌, ◌≤◌, ◌<◌, ◌≡◌, ◌≢◌, ◌↔◌, refl, true, false, [], ◌∷◌, some, arith,
}
use htmsql.Sysbench.Fileio.{
  Settings, Counters, SbFileRequest, type_file, type_null, mode_write, mode_rnd_write, op_read,
  clear_stats, fsync_request,
}
use htmsql.Sysbench.Fileio.Sequential.{IsMerged, IsSweep}
use htmsql.Sysbench.Fileio.Execute.{
  FileSystem, out_of_bounds, file_execute_request, execute-out_of_bounds,
}
use htmsql.Sysbench.Fileio.Totals.Finish.{clear_stats-Good}
use htmsql.Sysbench.Fileio.Random.{
  IsBlocked, rnd_request, rnd_request-aligned, calls, file_get_rnd_request, rnd_syncs_all,
}
use htmsql.Sysbench.Timer.{
  SbTimer, running as timer_running, stopped, sb_timer_stop, IsMeasured, sb_timer_stop-IsMeasured,
}
use htmsql.Sysbench.Memory.{Settings as MemorySettings, mem_op_write, memory_execute_request, times}
use htmsql.Sysbench.Memory.Requests.{Drained, memory_requests-Drained}
use native.Mathlib.Nat.{div-lt_iff_lt-mul}

-- Two files of 100 bytes, in requests of at most 2 blocks of 16 bytes
abbrev settings : Settings
settings = record {
  num_files = 2;
  total_size = 200;
  file_size = 100;
  file_block_size = 16;
  file_fsync_freq = 0;
  file_fsync_all = false;
  file_fsync_end = true;
  file_merged_requests = 2;
  file_max_request_size = 32;
  test_mode = mode_write;
  below_ratio = λ r w. true;
  scaled = λ n t. n * t / 1073741823;
  validate = true;
  max_requests = 10;
}

settings-IsMerged : IsMerged settings
settings-IsMerged = record {
  some_files = omega arith;
  few_files = omega arith;
  positive = omega arith;
  not_empty = omega arith;
  merged = omega arith;
}

abbrev disk : FileSystem
disk = record { pwrite = λ r. true; pread = λ r. true; fsync = λ n. true; is_valid = λ r. true }

clear_stats-IsSweep : IsSweep settings clear_stats
clear_stats-IsSweep = (clear_stats-Good settings settings-IsMerged).sweep

not_done : clear_stats.current_file ≢ settings.num_files
unfolding clear_stats
not_done h = absurd (omega (arith, h))

abbrev behind : SbFileRequest
behind = record { file_id = 2; pos = 0; size = 16; operation = op_read }

execute-out_of_bounds_example :
    (file_execute_request settings disk clear_stats behind ≡ out_of_bounds)
    ↔ ((behind.file_id ≡ settings.num_files) × (behind.pos + behind.size ≤ settings.file_size))
execute-out_of_bounds_example = execute-out_of_bounds settings disk clear_stats behind

-- Two files of 6 blocks of 16 bytes
abbrev blocked : Settings
blocked = record settings { file_size = 96; total_size = 192; test_mode = mode_rnd_write }

blocked-IsBlocked : IsBlocked blocked
blocked-IsBlocked = record {
  blocks = 6;
  positive = omega arith;
  some_block = omega arith;
  whole = refl;
  total = refl;
  below = λ n h.
      (div-lt_iff_lt-mul {k = 1073741823} {x = n * 192} {y = 192} (omega arith)).1
        (omega (arith, h));
}

rnd_request-aligned_example :
    let r = rnd_request blocked clear_stats 900000000 in
    (r.file_id < 2) × (r.pos + r.size ≤ 96) × (r.pos % 16 ≡ 0)
rnd_request-aligned_example =
    rnd_request-aligned clear_stats 900000000 blocked-IsBlocked (omega arith)

abbrev all_requests : Counters
all_requests = record {
  position = 0;
  current_file = 0;
  fsynced_file = 0;
  fsynced_file2 = 0;
  is_dirty = true;
  read_ops = 0;
  real_read_ops = 0;
  write_ops = 10;
  real_write_ops = 10;
  other_ops = 0;
  req_performed = 10;
  bytes_read = 0;
  bytes_written = 160;
  prev_req = fsync_request 0;
  warnings = 0;
}

rnd_syncs_all_example :
    ((n : ℕ)
      → n < 2
      → (file_get_rnd_request blocked (calls blocked (λ k. k) n all_requests) n).1
        ≡ type_file (fsync_request n))
    × (file_get_rnd_request blocked (calls blocked (λ k. k) 2 all_requests) 2
        ≡ (calls blocked (λ k. k) 2 all_requests, type_null))
rnd_syncs_all_example =
    rnd_syncs_all (λ k. k)
      (record { performed = refl; limited = omega arith; asked = refl; mode = refl }) refl

-- A timer with two events of 3 and 5 nanoseconds
abbrev timer : SbTimer
timer = record {
  time_start = 10;
  my_time = 5;
  min_time = 3;
  max_time = 5;
  sum_time = 8;
  events = 2;
  state = timer_running;
}

timer-IsMeasured : IsMeasured timer
timer-IsMeasured = record { low = omega arith; high = omega arith }

stops :
    sb_timer_stop timer 17
    ≡ some (record {
      time_start = 10;
      my_time = 7;
      min_time = 3;
      max_time = 7;
      sum_time = 15;
      events = 3;
      state = stopped;
    })
unfolding sb_timer_stop
stops = refl

sb_timer_stop-IsMeasured_example : IsMeasured (record {
  time_start = 10;
  my_time = 7;
  min_time = 3;
  max_time = 7;
  sum_time = 15;
  events = 3;
  state = stopped;
})
sb_timer_stop-IsMeasured_example =
    sb_timer_stop-IsMeasured 17 timer-IsMeasured
      (record { events_fit = omega arith; sum_fits = omega arith }) stops

-- 100 bytes in blocks of 16 bytes, and in blocks of none
abbrev memory : MemorySettings
memory = record {
  memory_block_size = 16;
  memory_total_size = 100;
  memory_oper = mem_op_write;
  memory_access_rnd = true;
  scaled = λ r e. 0;
}

abbrev no_block : MemorySettings
no_block = record memory { memory_block_size = 0 }

memory_requests-Drained_example : Drained memory 101 (record { total_ops = 0; total_bytes = 0 })
memory_requests-Drained_example =
    memory_requests-Drained
      (record { positive = omega arith; bytes_fit = omega arith; ops_fit = omega arith })

writes :
    memory_execute_request memory 5
    ≡ some (0 ∷ 0 ∷ 0 ∷ 0 ∷ 0 ∷ 0 ∷ 0 ∷ 0 ∷ 0 ∷ 0 ∷ 0 ∷ 0 ∷ 0 ∷ 0 ∷ 0 ∷ 0 ∷ [])
unfolding memory_execute_request times
writes = refl
