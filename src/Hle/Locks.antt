-- ===== src/Hle/Locks.antt =====
-- The locks of hle/lock_functions: the functions that LockType.cpp chooses, whose loops are those of
-- the files named atomic_*, hle_* and rtm_lock.cpp. The word of a lock is exchanged in one step; the
-- prefixes of lock elision let the processor run such steps in a transaction and change no outcome, so
-- they are not modelled, and neither are pauses. Of a transaction the model takes that `_xbegin` starts
-- it or returns a status, and that `_xabort` goes on behind `_xbegin` with bit 0 of the status set.
pub mod Exclusion
pub mod Smart
use htmsql.Prelude.{
  ℕ, zero, suc, ◌+◌, ◌%◌, ◌<◌, ◌≡◌, ◌≢◌, Bool, not, ◌&&◌, if◌then◌else◌, ◌==◌, ltb, leb, update,
  Option, none, some,
}

-- `LockType::EnumType`
pub data EnumType : Type 0 where
  no_synchronization pthread : EnumType
  atomic_exch_busy atomic_exch_spec atomic_exch_hle_busy atomic_exch_hle_spec : EnumType
  atomic_tas_busy atomic_tas_spec atomic_tas_hle_busy atomic_tas_hle_spec : EnumType
  rtm rtm_smart : EnumType
  hle_tas_busy hle_tas_spec hle_exch_busy hle_exch_spec hle_exch_spec_checked : EnumType
  hle_asm_exch_busy hle_asm_exch_spec hle_asm_exch_asm_spec : EnumType

-- The loops of the lock functions on the word: exchanges alone, with a loop of loads behind a refusal,
-- and with one in front too
pub data Loop : Type 0 where
  busy spec checked : Loop

-- What `init` assigns: nothing to call, the mutex of POSIX, a function on the word, or one of rtm_lock.cpp
pub data LockFunction : Type 0 where
  no_lock pthread_lock rtm_lock rtm_lock_smart : LockFunction
  word_lock : Loop → LockFunction

unfoldable pub lock_of : EnumType → LockFunction
lock_of no_synchronization = no_lock
lock_of pthread = pthread_lock
lock_of atomic_exch_busy = word_lock busy
lock_of atomic_exch_spec = word_lock spec
lock_of atomic_exch_hle_busy = word_lock busy
lock_of atomic_exch_hle_spec = word_lock spec
lock_of atomic_tas_busy = word_lock busy
lock_of atomic_tas_spec = word_lock spec
lock_of atomic_tas_hle_busy = word_lock busy
lock_of atomic_tas_hle_spec = word_lock spec
lock_of rtm = rtm_lock
lock_of rtm_smart = rtm_lock_smart
lock_of hle_tas_busy = word_lock busy
lock_of hle_tas_spec = word_lock spec
lock_of hle_exch_busy = word_lock busy
lock_of hle_exch_spec = word_lock spec
lock_of hle_exch_spec_checked = word_lock checked
lock_of hle_asm_exch_busy = word_lock busy
lock_of hle_asm_exch_spec = word_lock spec
lock_of hle_asm_exch_asm_spec = word_lock spec

-- `_xbegin`: it starts a transaction that runs on to the test behind it, or returns a status.
pub data Begun : Type 0 where
  started : Begun
  status : ℕ → Begun

-- How `rtm_lock_smart` returns, after so many calls of `_xbegin`
pub data Taken : Type 0 where
  in_transaction by_exchange : ℕ → Taken

abbrev pub max_retries : ℕ
max_retries = 10000000

-- The status behind an `_xabort(0)`
abbrev pub explicit_abort : ℕ
explicit_abort = 1

-- The status of attempt `n`, if it does not go on in the transaction: a started one aborts itself where
-- the pointer is not NULL.
unfoldable pub failed_with : (mutex : ℕ) → Begun → Option ℕ
failed_with mutex started = if mutex == 0 then none else some explicit_abort
failed_with mutex (status code) = some code

-- What follows on an attempt: the transaction, the next one, or `atomic_exch_lock_spec`
unfoldable pub tried : (failures n : ℕ) → Option ℕ → Option Taken → Option Taken
tried failures n none rest = some (in_transaction n)
tried failures n (some code) rest =
    if ltb 0 (code % 8) && leb (failures + 1) max_retries then rest else some (by_exchange n)

-- The loop of `rtm_lock_smart`, with the pointer to the lock; the fuel counts calls of `_xbegin`.
unfoldable pub smart_loop : (mutex : ℕ) → (ℕ → Begun) → (fuel failures n : ℕ) → Option Taken
smart_loop mutex begins zero failures n = none
smart_loop mutex begins (suc fuel) failures n =
    let rest = smart_loop mutex begins fuel (failures + 1) (n + 1) in
    tried failures n (failed_with mutex (begins n)) rest

unfoldable pub rtm_lock_smart_from : (mutex : ℕ) → (ℕ → Begun) → (fuel : ℕ) → Option Taken
rtm_lock_smart_from mutex begins fuel = smart_loop mutex begins fuel 0 0

-- Where a thread is around the word of a lock, in the loop that its lock function has
pub data Pc : Type 0 where
  outside inside : Pc
  exchanging waiting : Loop → Pc

unfoldable pub first_pc : Loop → Pc
first_pc busy = exchanging busy
first_pc spec = exchanging spec
first_pc checked = waiting checked

unfoldable pub refused_pc : Loop → Pc
refused_pc busy = exchanging busy
refused_pc spec = waiting spec
refused_pc checked = waiting checked

-- The word `type_mutex` and the threads that lock it
pub record System : Type 0 where
  pub word : ℕ
  pub pc : ℕ → Pc

abbrev pub at_pc : System → ℕ → Pc → System
at_pc s t p = record s { pc = update s.pc t p }

-- A step of a thread. Different threads may lock the word by locks of different types.
pub data Step (s : System) : System → Type 0 where
  calls :
      {t : ℕ} {l : Loop} (e : EnumType)
      → lock_of e ≡ word_lock l
      → s.pc t ≡ outside
      → Step s (at_pc s t (first_pc l))
  takes :
      {t : ℕ} {l : Loop}
      → s.pc t ≡ exchanging l
      → s.word ≡ 0
      → Step s (record { word = 1; pc = update s.pc t inside })
  is_refused :
      {t : ℕ} {l : Loop}
      → s.pc t ≡ exchanging l
      → s.word ≢ 0
      → Step s (record { word = 1; pc = update s.pc t (refused_pc l) })
  sees_free :
      {t : ℕ} {l : Loop} → s.pc t ≡ waiting l → s.word ≢ 1 → Step s (at_pc s t (exchanging l))
  unlocks : {t : ℕ} → s.pc t ≡ inside → Step s (record { word = 0; pc = update s.pc t outside })

abbrev pub init : System
init = record { word = 0; pc = λ t. outside }

pub data Reach : System → Type 0 where
  start : Reach init
  later : {s u : System} → Reach s → Step s u → Reach u
