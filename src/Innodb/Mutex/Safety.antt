-- ===== src/Innodb/Mutex/Safety.antt =====
-- Mutual exclusion and the two lemmas on wake-ups that the head of sync0sync.cc states.
use htmsql.Prelude.{
  ℕ, ◌≤◌, ◌≡◌, refl, sym, subst, ◌≢◌, ◌⊎◌, inl, inr, true, false, update, arith, Bool-cases,
}
use htmsql.Innodb.Event.{OsEvent, os_event_set, os_event_reset, wait_is_over}
use htmsql.Innodb.Mutex.{
  IbMutex, Pc, sleep, owner, check, clear, signal, Move, leave, somebody, clear_waiters, set_event,
  System, Reach,
}
use htmsql.Innodb.Mutex.Invariant.{Reach-Inv, will_signal}

-- Two threads never own the mutex together, and the lock word is not 0 exactly while one owns it,
-- whatever number of threads there is and however their steps are interleaved.
pub mutual_exclusion :
    {r : ℕ} {s : System}
    → Reach r s
    → ((i j : ℕ) → s.pc i ≡ owner → s.pc j ≡ owner → i ≡ j)
      × (s.mutex.lock_word ≢ 0 → (i : ℕ) × (s.pc i ≡ owner))
      × ((i : ℕ) → s.pc i ≡ owner → s.mutex.lock_word ≢ 0)
mutual_exclusion p = let inv = Reach-Inv p in (inv.unique, inv.owned, inv.taken)

-- A call of `os_event_set` is not lost to a thread that has reset the event before, also if
-- another thread resets the event in between: its wait is over at once. The count of the event is
-- at least 1, as it is from the start.
pub set-not_lost :
    (e : OsEvent)
    → let r = os_event_reset e in
      1 ≤ e.signal_count → wait_is_over (os_event_reset (os_event_set r.0)).0 r.1 ≡ true
unfolding os_event_set os_event_reset wait_is_over
set-not_lost e h = ground arith

-- A thread that has yet to set the event: it is at the signal or in front of it, or it owns the mutex or has
-- just left it and `waiters` is set.
pub data IsReleasing (waiters : ℕ) : Pc → Type 0 where
  at_signal : IsReleasing waiters signal
  at_clear : IsReleasing waiters clear
  at_check : waiters ≢ 0 → IsReleasing waiters check
  at_owner : waiters ≢ 0 → IsReleasing waiters owner

-- Steps of thread `j` alone that lead to `u`.
pub data Alone (r j : ℕ) (u : System) : System → Type 0 where
  stay : Alone r j u u
  step :
      {s : System} {m : IbMutex} {p : Pc}
      → Move r s.mutex (s.pc j) m p
      → Alone r j u (record { mutex = m; pc = update s.pc j p })
      → Alone r j u s

-- The steps of thread `j` alone end the wait of thread `i`.
pub record WakesAlone (r i c j : ℕ) (s : System) : Type 0 where
  pub last : System
  pub run : Alone r j last s
  pub still : last.pc i ≡ sleep c
  pub over : wait_is_over last.mutex.event c ≡ true

waiting : (e : OsEvent) (c : ℕ) → wait_is_over e c ≡ false → c ≡ e.signal_count
unfolding wait_is_over
waiting e c h = ground arith

will_signal-cases :
    (p : Pc) → will_signal p ≡ true → (p ≡ owner) ⊎ (p ≡ check) ⊎ (p ≡ clear) ⊎ (p ≡ signal)
will_signal-cases owner h = inl refl
will_signal-cases check h = inr (inl refl)
will_signal-cases clear h = inr (inr (inl refl))
will_signal-cases signal h = inr (inr (inr refl))
will_signal-cases p h = cc

module _ {r i c j : ℕ} where
  goes_on :
      {s : System} {p p' : Pc} {m : IbMutex}
      → s.pc j ≡ p
      → Move r s.mutex p m p'
      → WakesAlone r i c j (record { mutex = m; pc = update s.pc j p' })
      → WakesAlone r i c j s
  goes_on {s} {p' = q} {m = n} e mv w = record {
    last = w.last;
    run = step (subst (λ k. Move r s.mutex k n q) (sym e) mv) w.run;
    still = w.still;
    over = w.over;
  }

  from_signal : (s : System) → s.pc i ≡ sleep c → s.pc j ≡ signal → WakesAlone r i c j s
  unfolding os_event_set wait_is_over
  from_signal s asleep e =
      goes_on e set_event
        (record { last = _; run = stay; still = ground arith; over = ground arith })

  from_clear : (s : System) → s.pc i ≡ sleep c → s.pc j ≡ clear → WakesAlone r i c j s
  from_clear s asleep e = goes_on e clear_waiters (from_signal _ (ground arith) (ground arith))

  from_check :
      (s : System) → s.pc i ≡ sleep c → s.mutex.waiters ≢ 0 → s.pc j ≡ check → WakesAlone r i c j s
  from_check s asleep set e = goes_on e (somebody set) (from_clear _ (ground arith) (ground arith))

  from_owner :
      (s : System) → s.pc i ≡ sleep c → s.mutex.waiters ≢ 0 → s.pc j ≡ owner → WakesAlone r i c j s
  from_owner s asleep set e = goes_on e leave (from_check _ (ground arith) set (ground arith))

-- A thread that sleeps for the mutex is never stranded: in every reachable state, its wait is over,
-- or there is a thread that sets the event by its own steps alone, since it is at the signal or in
-- front of it, or it owns the mutex or has just reset the lock word and the waiters flag is set;
-- this holds for any number of threads, where the reset of the lock word is done before the read of
-- the flag behind it.
pub no_lost_wakeup :
    {r i c : ℕ} {s : System}
    → Reach r s
    → s.pc i ≡ sleep c
    → (wait_is_over s.mutex.event c ≡ true)
      ⊎ ((j : ℕ) × IsReleasing s.mutex.waiters (s.pc j) × WakesAlone r i c j s)
no_lost_wakeup {i} {c} {s} p asleep =
    let inv = Reach-Inv p in
    elim (Bool-cases (wait_is_over s.mutex.event c)) [
      | inl e ↦ inl e
      | inr e ↦
          let same = waiting s.mutex.event c e in
          elim (inv.seen i c (rw asleep refl) (rw asleep refl) same) [
            | inr (k, at) ↦ inr (k, rw at at_signal, from_signal s asleep at)
            | inl set ↦
                let (j, w) = inv.served i c asleep same in
                elim (will_signal-cases (s.pc j) w) [
                  | inl at ↦ inr (j, rw at (at_owner set), from_owner s asleep set at)
                  | inr (inl at) ↦ inr (j, rw at (at_check set), from_check s asleep set at)
                  | inr (inr (inl at)) ↦ inr (j, rw at at_clear, from_clear s asleep at)
                  | inr (inr (inr at)) ↦ inr (j, rw at at_signal, from_signal s asleep at)
                ]
          ]
    ]
