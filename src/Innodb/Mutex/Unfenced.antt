-- ===== src/Innodb/Mutex/Unfenced.antt =====
-- The exit of the mutex where the reset of the lock word is a plain store, as `__hle_release_clear4`
-- in mutex_reset_lock_word is: the processor may keep it in the thread's store buffer while the
-- thread goes on to read `waiters`. An exchange waits until the buffer of its thread is empty.
use htmsql.Prelude.{
  ℕ, zero, suc, ◌≤◌, ◌<◌, ◌≡◌, ◌≢◌, refl, sym, subst, Bool, true, false, update, arith,
}
use htmsql.Innodb.Event.{os_event_create, os_event_reset, wait_count, wait_is_over}
use htmsql.Innodb.Mutex.{
  IbMutex, mutex_create_func, mutex_reset_lock_word, Pc, outside, spin, reserve, announce, retry,
  sleep, owner, check, Move, enter, busy, round, stop_late, attempt_lost, reset, set_waiters,
  retry_again, retry_lost, System, init,
}

-- The threads, and whether the reset of the lock word is in the buffer of a thread
pub record Buffered : Type 0 where
  pub system : System
  pub resets : ℕ → Bool

pub data BufferedStep (rounds : ℕ) (b : Buffered) : Buffered → Type 0 where
  picks :
      (t : ℕ) {m : IbMutex} {p : Pc}
      → b.resets t ≡ false
      → Move rounds b.system.mutex (b.system.pc t) m p
      → BufferedStep rounds b
          (record b { system = record { mutex = m; pc = update b.system.pc t p } })
  -- `mutex_reset_lock_word` and the read of `waiters` behind it
  leaves :
      (t : ℕ)
      → b.resets t ≡ false
      → b.system.pc t ≡ owner
      → BufferedStep rounds b (record {
        system = record { mutex = b.system.mutex; pc = update b.system.pc t check };
        resets = update b.resets t true;
      })
  sees_nobody :
      (t : ℕ)
      → b.resets t ≡ true
      → b.system.pc t ≡ check
      → b.system.mutex.waiters ≡ 0
      → BufferedStep rounds b (record b {
        system = record { mutex = b.system.mutex; pc = update b.system.pc t outside };
      })
  -- the store comes to the memory
  drains :
      (t : ℕ)
      → b.resets t ≡ true
      → BufferedStep rounds b (record {
        system = record { mutex = mutex_reset_lock_word b.system.mutex; pc = b.system.pc };
        resets = update b.resets t false;
      })

pub data BufferedReach (rounds : ℕ) : Buffered → Type 0 where
  start : BufferedReach rounds (record { system = init; resets = λ t. false })
  later :
      {a b : Buffered} → BufferedReach rounds a → BufferedStep rounds a b → BufferedReach rounds b

-- Thread 0 has left with its reset in the buffer, and thread 1 is at `p`.
record Left (rounds : ℕ) (p : Pc) : Type 0 where
  b : Buffered
  reached : BufferedReach rounds b
  there : b.system.pc 1 ≡ p
  others : (j : ℕ) → j ≢ 1 → b.system.pc j ≡ outside
  taken : b.system.mutex.lock_word ≢ 0
  first : b.resets 0 ≡ true
  second : (j : ℕ) → j ≢ 0 → b.resets j ≡ false
  count : b.system.mutex.event.signal_count ≡ 1
  unset : b.system.mutex.event.is_set ≡ false

one : ◌≢◌ {A = ℕ} 1 0
one e = absurd (omega (arith, e))

module _ {r : ℕ} where
  left : Left r outside
  unfolding mutex_create_func os_event_create
  left = record {
    b = _;
    reached =
        later (later (later start (picks 0 refl (enter refl))) (leaves 0 refl refl))
          (sees_nobody 0 refl refl refl);
    there = refl;
    others = λ j ne. ground arith;
    taken = one;
    first = refl;
    second = λ j ne. ground arith;
    count = refl;
    unset = refl;
  }

  goes_on :
      {p p' : Pc} {m : IbMutex} (l : Left r p)
      → Move r l.b.system.mutex p m p'
      → m.lock_word ≢ 0
      → m.event.signal_count ≡ 1
      → m.event.is_set ≡ false
      → Left r p'
  goes_on {p' = q} {m} l mv taken count unset = record {
    b = record l.b { system = record { mutex = m; pc = update l.b.system.pc 1 q } };
    reached = later l.reached (
        picks 1 (l.second 1 (λ e. absurd (omega (arith, e))))
          (subst (λ k. Move r l.b.system.mutex k m q) (sym l.there) mv));
    there = refl;
    others = λ j ne. ground (arith, l.others j);
    taken = taken;
    first = l.first;
    second = l.second;
    count = count;
    unset = unset;
  }

  spins : (i : ℕ) → i ≤ r → Left r (spin i)
  spins zero le = goes_on left (busy left.taken) one left.count left.unset
  spins (suc i) le =
      let l = spins i (omega arith) in
      subst (λ k. Left r (spin k)) (omega arith)
        (goes_on l (round l.taken (omega arith)) l.taken l.count l.unset)

  reserves : Left r reserve
  reserves =
      let l = spins r (omega arith) in
      let at = goes_on l (stop_late (omega arith)) l.taken l.count l.unset in
      goes_on at (attempt_lost at.taken (omega arith)) one at.count at.unset

  announces : Left r (announce 1)
  unfolding os_event_reset
  announces =
      let l = reserves in
      subst (λ c. Left r (announce c)) l.count (goes_on l reset l.taken l.count refl)

  retries : (i : ℕ) → i < 4 → Left r (retry i 1)
  retries zero lt = let l = announces in goes_on l set_waiters l.taken l.count l.unset
  retries (suc i) lt =
      let l = retries i (omega arith) in
      subst (λ k. Left r (retry k 1)) (omega arith)
        (goes_on l (retry_again l.taken (omega arith)) one l.count l.unset)

  sleeps : Left r (sleep 1)
  unfolding wait_count
  sleeps =
      let l = retries 3 (omega arith) in
      goes_on l (retry_lost l.taken (omega arith)) one l.count l.unset

-- Where the reset of the lock word stays in the store buffer behind the read of the waiters flag, whatever
-- the number of spin rounds is, a state is reachable in which a thread sleeps for a mutex that is
-- free, its wait is not over, and every other thread is outside with nothing in its buffer: none of
-- them is on its way to set the event.
pub lost_wakeup :
    (rounds : ℕ)
    → (b : Buffered) × BufferedReach rounds b
      × (b.system.pc 1 ≡ sleep 1)
      × (wait_is_over b.system.mutex.event 1 ≡ false)
      × (b.system.mutex.lock_word ≡ 0)
      × ((j : ℕ) → j ≢ 1 → b.system.pc j ≡ outside)
      × ((j : ℕ) → b.resets j ≡ false)
unfolding wait_is_over
lost_wakeup rounds =
    let l = sleeps {r = rounds} in
    (
      record {
        system = record { mutex = mutex_reset_lock_word l.b.system.mutex; pc = l.b.system.pc };
        resets = update l.b.resets 0 false;
      },
      later l.reached (drains 0 l.first),
      l.there,
      ground (arith, l.count, l.unset),
      refl,
      l.others,
      (λ j. ground (arith, l.second j)),
    )
