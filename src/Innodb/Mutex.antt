-- ===== src/Innodb/Mutex.antt =====
-- The mutex of mysql/mysql-5.6.10-beta/storage/innobase (include/sync0sync.ic, sync/sync0sync.cc)
-- built with HAVE_HLE, for any number of threads. Each access to shared memory is one step, in one
-- order for all threads, as if the reset of the lock word were the memory barrier that the comment in
-- mutex_exit_func assumes; Unfenced has the reset as a plain store. A lock elision is one more such order, and the pauses that end it change
-- no state, so neither is a step. Of the wait array (sync0arr.cc, not in this repository) the model
-- takes what the comments of sync0sync.cc state: reserving a cell resets the event of the mutex and
-- keeps the count that is returned, and the wait is `os_event_wait_low` with that count.
pub mod Invariant
pub mod Safety
pub mod Unfenced
use htmsql.Prelude.{ℕ, suc, ◌+◌, ◌≤◌, ◌<◌, ◌≡◌, ◌≢◌, Bool, true, false, ◌||◌, if◌then◌else◌, update}
use htmsql.Innodb.Event.{
  OsEvent, os_event_create, os_event_set, os_event_reset, wait_count, wait_is_over,
}

-- `ib_mutex_t`: the fields that the threads synchronise by
pub record IbMutex : Type 0 where
  pub lock_word : ℕ
  pub waiters : ℕ
  pub event : OsEvent

-- `mutex_create_func`
unfoldable pub mutex_create_func : IbMutex
mutex_create_func = record { lock_word = 0; waiters = 0; event = os_event_create }

-- `ib_mutex_test_and_set`: the atomic exchange, and the value that it returns
abbrev pub ib_mutex_test_and_set : IbMutex → IbMutex × ℕ
ib_mutex_test_and_set m = (record m { lock_word = 1 }, m.lock_word)

abbrev pub mutex_reset_lock_word : IbMutex → IbMutex
mutex_reset_lock_word m = record m { lock_word = 0 }

abbrev pub mutex_set_waiters : IbMutex → ℕ → IbMutex
mutex_set_waiters m n = record m { waiters = n }

-- Where a thread stands, with its locals.
pub data Pc : Type 0 where
  outside : Pc
  spin : (i : ℕ) → Pc  -- the while loop of `mutex_spin_wait`
  attempt : (i : ℕ) → Pc  -- the test-and-set behind that loop
  reserve : Pc  -- `sync_array_reserve_cell`
  announce : (count : ℕ) → Pc  -- `mutex_set_waiters(mutex, 1)`
  retry : (i count : ℕ) → Pc  -- the for loop of four more attempts
  sleep : (count : ℕ) → Pc  -- `sync_array_wait_event`
  owner : Pc  -- between the enter and the exit
  check : Pc  -- `mutex_exit_func` behind the reset of the lock word
  clear : Pc  -- `mutex_signal_object`
  signal : Pc  -- `os_event_set` there

-- One step of one thread. `rounds` is SYNC_SPIN_ROUNDS.
pub data Move (rounds : ℕ) (m : IbMutex) : Pc → IbMutex → Pc → Type 0 where
  -- `mutex_enter_func` and `mutex_enter_nowait_func`
  enter : m.lock_word ≡ 0 → Move rounds m outside (ib_mutex_test_and_set m).0 owner
  busy : m.lock_word ≢ 0 → Move rounds m outside (ib_mutex_test_and_set m).0 (spin 0)
  nowait_busy : m.lock_word ≢ 0 → Move rounds m outside (ib_mutex_test_and_set m).0 outside
  -- `mutex_spin_wait`
  round : {i : ℕ} → m.lock_word ≢ 0 → i < rounds → Move rounds m (spin i) m (spin (i + 1))
  stop_free : {i : ℕ} → m.lock_word ≡ 0 → Move rounds m (spin i) m (attempt i)
  stop_late : {i : ℕ} → rounds ≤ i → Move rounds m (spin i) m (attempt i)
  attempt_won :
      {i : ℕ} → m.lock_word ≡ 0 → Move rounds m (attempt i) (ib_mutex_test_and_set m).0 owner
  attempt_again :
      {i : ℕ}
      → m.lock_word ≢ 0
      → i + 1 < rounds
      → Move rounds m (attempt i) (ib_mutex_test_and_set m).0 (spin (i + 1))
  attempt_lost :
      {i : ℕ}
      → m.lock_word ≢ 0
      → rounds ≤ i + 1
      → Move rounds m (attempt i) (ib_mutex_test_and_set m).0 reserve
  reset :
      Move rounds m reserve
        (record m { event = (os_event_reset m.event).0 })
        (announce (os_event_reset m.event).1)
  set_waiters : {c : ℕ} → Move rounds m (announce c) (mutex_set_waiters m 1) (retry 0 c)
  retry_won :
      {i c : ℕ} → m.lock_word ≡ 0 → Move rounds m (retry i c) (ib_mutex_test_and_set m).0 owner
  retry_again :
      {i c : ℕ}
      → m.lock_word ≢ 0
      → i + 1 < 4
      → Move rounds m (retry i c) (ib_mutex_test_and_set m).0 (retry (i + 1) c)
  retry_lost :
      {i c : ℕ}
      → m.lock_word ≢ 0
      → 4 ≤ i + 1
      → Move rounds m (retry i c) (ib_mutex_test_and_set m).0 (sleep (wait_count m.event c))
  wake : {c : ℕ} → wait_is_over m.event c ≡ true → Move rounds m (sleep c) m (spin 0)
  -- `mutex_exit_func` and `mutex_signal_object`
  leave : Move rounds m owner (mutex_reset_lock_word m) check
  nobody : m.waiters ≡ 0 → Move rounds m check m outside
  somebody : m.waiters ≢ 0 → Move rounds m check m clear
  clear_waiters : Move rounds m clear (mutex_set_waiters m 0) signal
  set_event : Move rounds m signal (record m { event = os_event_set m.event }) outside

-- The mutex and its threads, one for each number.
pub record System : Type 0 where
  pub mutex : IbMutex
  pub pc : ℕ → Pc

pub data Step (rounds : ℕ) (s : System) : System → Type 0 where
  pick :
      (t : ℕ) {m : IbMutex} {p : Pc}
      → Move rounds s.mutex (s.pc t) m p
      → Step rounds s (record { mutex = m; pc = update s.pc t p })

abbrev pub init : System
init = record { mutex = mutex_create_func; pc = λ _. Pc.outside }

pub data Reach (rounds : ℕ) : System → Type 0 where
  start : Reach rounds init
  later : {s u : System} → Reach rounds s → Step rounds s u → Reach rounds u
