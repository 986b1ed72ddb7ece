-- ===== src/Innodb/Tests.antt =====
-- Runs of the model at concrete inputs.
use htmsql.Prelude.{
  ◌⊎◌, ℕ, zero, suc, ◌≤◌, ◌<◌, ◌≡◌, ◌≢◌, refl, true, false, List, [], ◌∷◌, none, some, arith,
  update, ◌==◌, if◌then◌else◌, ◌||◌, set,
}
use htmsql.Innodb.Event.{os_event_create, os_event_reset, wait_count, wait_is_over}
use htmsql.Innodb.Mutex.{
  System, mutex_create_func, ib_mutex_test_and_set, owner, sleep, Reach, Step, start, later, init,
  pick, enter, busy, stop_late, attempt_lost, reset, set_waiters, retry_again, retry_lost,
}
use htmsql.Innodb.Mutex.Safety.{mutual_exclusion, no_lost_wakeup, IsReleasing, WakesAlone}
use htmsql.Innodb.Levels.{SyncArr, ulint_undefined, order_ok, one_of, plain_levels}
use htmsql.Innodb.Levels.Bound.{Holds}
use htmsql.Innodb.Levels.Cells.{IsValid, count}
use htmsql.Innodb.Levels.Reserve.{Reserved}
use htmsql.Innodb.Levels.Free.{Freed}
use htmsql.Innodb.Levels.Deadlock.{Waiter, IsCircle, circle-refused}
use htmsql.Innodb.Levels.Threads.{
  SyncThread, Globals, Owns, own_slot, sync_thread_level_arrays_find_slot, sync_thread_add_level,
  sync_thread_add_level_lem, sync_thread_reset_level, sync_thread_reset_level_lem,
}

-- Thread 0 owns the mutex.
abbrev owned : System
owned = record { mutex = (ib_mutex_test_and_set mutex_create_func).0; pc = update init.pc 0 owner }

owned-Reach : Reach 0 owned
unfolding mutex_create_func
owned-Reach = later start (pick 0 (enter refl))

mutual_exclusion_example :
    ((i j : ℕ) → owned.pc i ≡ owner → owned.pc j ≡ owner → i ≡ j)
    × (owned.mutex.lock_word ≢ 0 → (i : ℕ) × (owned.pc i ≡ owner))
    × ((i : ℕ) → owned.pc i ≡ owner → owned.mutex.lock_word ≢ 0)
mutual_exclusion_example = mutual_exclusion owned-Reach

infixl 20 ◌▸◌
◌▸◌ : {s u : System} → Reach 0 s → Step 0 s u → Reach 0 u
p ▸ st = later p st

-- Thread 1 then waits for it.
asleep : (s : System) × Reach 0 s × (s.pc 1 ≡ sleep 1)
unfolding mutex_create_func os_event_create os_event_reset wait_count
asleep = (
  _,
  owned-Reach
      ▸ pick 1 (busy (λ e. absurd (omega (arith, e))))
      ▸ pick 1 (stop_late (omega arith))
      ▸ pick 1 (attempt_lost (λ e. absurd (omega (arith, e))) (omega arith))
      ▸ pick 1 reset
      ▸ pick 1 set_waiters
      ▸ pick 1 (retry_again (λ e. absurd (omega (arith, e))) (omega arith))
      ▸ pick 1 (retry_again (λ e. absurd (omega (arith, e))) (omega arith))
      ▸ pick 1 (retry_again (λ e. absurd (omega (arith, e))) (omega arith))
      ▸ pick 1 (retry_lost (λ e. absurd (omega (arith, e))) (omega arith)),
  refl,
)

no_lost_wakeup_example :
    (wait_is_over asleep.0.mutex.event 1 ≡ true)
    ⊎ ((j : ℕ) × IsReleasing asleep.0.mutex.waiters (asleep.0.pc j) × WakesAlone 0 1 1 j asleep.0)
no_lost_wakeup_example = no_lost_wakeup asleep.1 asleep.2

created : 1 ≤ os_event_create.signal_count
unfolding os_event_create
created = omega arith

-- Latches of the levels of the log and of the memory pool's hash table, and of another one above.
abbrev log_held : SyncArr
log_held = record {
  in_use = 1;
  n_elems = 1;
  max_elems = 10000;
  next_free = ulint_undefined;
  elems = λ i.
      if i == 0 then record { latch = some 7; level = 170 } else record { latch = none; level = 0 };
}

log_held-IsValid : IsValid log_held
unfolding count
log_held-IsValid = record {
  small = omega arith;
  fits = omega arith;
  beyond = λ i h. ground arith;
  used = refl;
  free = [];
  listed = refl;
  whole = refl;
}

log_held-Holds : Holds log_held 170
log_held-Holds = record { cell = 0; latch = 7; in_range = omega arith; at = refl; has = refl }

-- A thread that holds the latch of the log waits for that of the hash table, and the other way round.
abbrev hash_held : SyncArr
hash_held = record log_held {
  elems = λ i.
      if i == 0 then record { latch = some 8; level = 131 } else record { latch = none; level = 0 };
}

abbrev waiters : ℕ → Waiter
waiters zero = record { array = log_held; wants = 131 }
waiters (suc i) = record { array = hash_held; wants = 170 }

waiters-IsCircle : IsCircle 1 waiters
waiters-IsCircle = record { plain = plain; held = held; closed = log_held-Holds }
  where
    plain : (i : ℕ) → i ≤ 1 → one_of (waiters i).wants plain_levels ≡ true
    plain zero h = refl
    plain (suc i) h = refl

    held : (i : ℕ) → i < 1 → Holds (waiters (suc i)).array (waiters i).wants
    held zero h = record { cell = 0; latch = 8; in_range = omega arith; at = refl; has = refl }
    held (suc i) h = absurd (omega (arith, h))

circle-refused_example :
    (i : ℕ) × (i ≤ 1) × (order_ok false false (waiters i).array (waiters i).wants ≡ false)
circle-refused_example = circle-refused false false waiters-IsCircle

abbrev globals : Globals
globals = record {
  sync_order_checks_on = true;
  srv_is_being_started = false;
  buf_debug_prints = false;
  sync_thread_mutex = 1;
  mutex_list_mutex = 2;
  rw_lock_debug_mutex = 3;
  rw_lock_list_mutex = 4;
}

abbrev threads : List SyncThread
threads = record { id = 5; levels = some log_held } ∷ []

threads-find_slot : sync_thread_level_arrays_find_slot threads 5 ≡ some (0, log_held)
unfolding sync_thread_level_arrays_find_slot
threads-find_slot = refl

threads-own_slot : own_slot threads 5 ≡ some (0, log_held)
unfolding own_slot sync_thread_level_arrays_find_slot
threads-own_slot = refl

sync_thread_add_level_lem_example :
    ((false || order_ok false false log_held 131) ≡ false
      → sync_thread_add_level globals threads 5 8 131 false ≡ none)
    × ((false || order_ok false false log_held 131) ≡ true
        → (r : SyncArr) × (sync_thread_add_level globals threads 5 8 131 false
            ≡ some (set threads 0 (record { id = 5; levels = some r })))
          × Reserved log_held 8 131 r)
sync_thread_add_level_lem_example =
    sync_thread_add_level_lem globals threads 5 8 131 0 false log_held
      (record { checks = refl; ordinary = refl; fixed = refl }) threads-own_slot log_held-IsValid
      (omega arith)

sync_thread_reset_level_lem_example :
    (Owns log_held 7
      → (c : ℕ) × (r : SyncArr) × (sync_thread_reset_level globals threads 5 7 false
          ≡ some (set threads 0 (record { id = 5; levels = some r }), true))
        × ((log_held.elems c).latch ≡ some 7)
        × Freed log_held c r)
    × (¬ Owns log_held 7
        → sync_thread_reset_level globals threads 5 7 false
          ≡ (if false then some (threads, true) else none))
sync_thread_reset_level_lem_example =
    sync_thread_reset_level_lem globals threads 5 7 0 false log_held refl refl threads-find_slot
      log_held-IsValid
