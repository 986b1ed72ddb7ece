-- ===== src/Innodb/Elision.antt =====
-- The mutexes that mysql/mysql-5.6.10-syslock-rtm and mysql/mysql-5.6.10-trx_lock_func-rtm enter in
-- a transaction of the processor (storage/innobase/include/myrtm.cc, and rtm_mutex_exit_func of
-- sync0sync.ic). The mutex under them is that of Innodb/Mutex: these variants exchange the same lock
-- word. Of the processor the model takes what its manual documents: `_xbegin` starts a transaction or
-- returns a status, a transaction may be aborted at any time and goes on behind `_xbegin`, one that
-- has read a word is aborted when another thread changes that word, and `_xend` commits.
pub mod Invariant
pub mod Exclusion
pub mod Race
use htmsql.Prelude.{
  ℕ, ◌+◌, ◌≤◌, ◌<◌, ◌≡◌, ◌≢◌, Bool, true, false, not, ◌&&◌, if◌then◌else◌, ◌==◌, leb, update,
}
use htmsql.Innodb.Mutex.{IbMutex, mutex_create_func, Pc, outside, check, Move}

-- How `rtm_lock` differs between the two: the retries, and whether the transaction reads the lock
-- word and aborts itself where that is not 0.
pub record RtmLock : Type 0 where
  pub max_retries : ℕ
  pub reads_lock_word : Bool

abbrev pub syslock_rtm : RtmLock
syslock_rtm = record { max_retries = 10; reads_lock_word = true }

abbrev pub trx_lock_func_rtm : RtmLock
trx_lock_func_rtm = record { max_retries = 1000; reads_lock_word = false }

-- Where a thread is in the functions around the mutex, with its failures so far.
pub data Layer : Type 0 where
  idle : Layer  -- outside of `rtm_lock` and `rtm_mutex_exit_func`
  trying : (failures : ℕ) → Layer  -- in front of `_xbegin`
  begun : (failures : ℕ) → Layer  -- in the transaction, in front of the test of the lock word
  speculating : (failures : ℕ) → Layer  -- in the transaction, behind `rtm_lock`
  fallback : Layer  -- from `mutex_enter_func` in `rtm_lock` to the end of `mutex_exit_func`
  released : Layer  -- behind `rtm_unlock`
  closing : Layer  -- at the waiters in `rtm_mutex_exit_func`

-- `_xbegin` has returned a status other than `_XBEGIN_STARTED`.
unfoldable pub failed : RtmLock → ℕ → Layer
failed v k = if leb (k + 1) v.max_retries then trying (k + 1) else fallback

-- What becomes of a thread when another one takes the mutex from `m` to `m'`.
unfoldable pub noticed : RtmLock → IbMutex → IbMutex → Layer → Layer
unfolding failed
noticed v m m' (speculating k) =
    if v.reads_lock_word && not (m.lock_word == m'.lock_word) then failed v k else speculating k
noticed v m m' l = l

pub record System : Type 0 where
  pub mutex : IbMutex
  pub pc : ℕ → Pc
  pub layer : ℕ → Layer

abbrev pub at_layer : System → ℕ → Layer → System
at_layer s t l = record s { layer = update s.layer t l }

-- Thread `t` has moved in a function of the mutex.
abbrev pub moved : RtmLock → System → ℕ → IbMutex → Pc → Layer → System
moved v s t m p l = record {
  mutex = m;
  pc = update s.pc t p;
  layer = update (λ i. noticed v s.mutex m (s.layer i)) t l;
}

-- The functions of the mutex end `outside`.
unfoldable pub behind : (stays leaves : Layer) → Pc → Layer
behind stays leaves outside = leaves
behind stays leaves _ = stays

pub data Step (v : RtmLock) (rounds : ℕ) (s : System) : System → Type 0 where
  -- `rtm_lock`
  calls : {t : ℕ} → s.layer t ≡ idle → Step v rounds s (at_layer s t (trying 0))
  starts : {t k : ℕ} → s.layer t ≡ trying k → Step v rounds s (at_layer s t (begun k))
  is_refused : {t k : ℕ} → s.layer t ≡ trying k → Step v rounds s (at_layer s t (failed v k))
  goes_on :
      {t k : ℕ}
      → s.layer t ≡ begun k
      → (v.reads_lock_word ≡ true → s.mutex.lock_word ≡ 0)
      → Step v rounds s (at_layer s t (speculating k))
  aborts_itself :
      {t k : ℕ}
      → s.layer t ≡ begun k
      → v.reads_lock_word ≡ true
      → s.mutex.lock_word ≢ 0
      → Step v rounds s (at_layer s t (failed v k))
  -- the processor aborts
  aborted_begun : {t k : ℕ} → s.layer t ≡ begun k → Step v rounds s (at_layer s t (failed v k))
  aborted : {t k : ℕ} → s.layer t ≡ speculating k → Step v rounds s (at_layer s t (failed v k))
  -- `mutex_enter_func`, the critical section and `mutex_exit_func`
  moves :
      {t : ℕ} {m : IbMutex} {p : Pc}
      → s.layer t ≡ fallback
      → Move rounds s.mutex (s.pc t) m p
      → (s.pc t ≡ outside → p ≢ outside)
      → Step v rounds s (moved v s t m p (behind fallback released p))
  -- `rtm_mutex_exit_func`: the transaction ends in `rtm_unlock`, and the waiters are looked at
  commits : {t k : ℕ} → s.layer t ≡ speculating k → Step v rounds s (at_layer s t released)
  checks :
      {t : ℕ}
      → s.layer t ≡ released
      → Step v rounds s (record s { pc = update s.pc t check; layer = update s.layer t closing })
  signals :
      {t : ℕ} {m : IbMutex} {p : Pc}
      → s.layer t ≡ closing
      → Move rounds s.mutex (s.pc t) m p
      → Step v rounds s (moved v s t m p (behind closing idle p))

abbrev pub init : System
init = record { mutex = mutex_create_func; pc = λ _. outside; layer = λ _. idle }

pub data Reach (v : RtmLock) (rounds : ℕ) : System → Type 0 where
  start : Reach v rounds init
  later : {s u : System} → Reach v rounds s → Step v rounds s u → Reach v rounds u
