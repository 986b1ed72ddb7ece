-- ===== src/Innodb/Mutex/Invariant.antt =====
-- What every reachable state of the mutex and its threads satisfies.
use htmsql.Prelude.{
  ℕ, ◌≤◌, ◌≡◌, refl, ◌≢◌, ◌⊎◌, inl, inr, Bool, true, false, update, arith, Option, none, some,
}
use htmsql.Innodb.Event.{os_event_create, os_event_set, os_event_reset, wait_count}
use htmsql.Innodb.Mutex.{
  IbMutex, mutex_create_func, Pc, announce, retry, sleep, owner, check, clear, signal, Move, enter,
  busy, nowait_busy, attempt_won, attempt_again, attempt_lost, set_waiters, retry_won, retry_again,
  retry_lost, leave, nobody, somebody, clear_waiters, set_event, System, Step, pick, init, Reach,
  start, later,
}

-- The count that a thread got from its reset of the event and still relies on.
abbrev pub count_of : Pc → Option ℕ
count_of (announce c) = some c
count_of (retry i c) = some c
count_of (sleep c) = some c
count_of _ = none

-- The thread has announced itself as a waiter.
abbrev pub announced : Pc → Bool
announced (retry i c) = true
announced (sleep c) = true
announced _ = false

-- The thread will look at `waiters`, or has done so and is about to signal.
abbrev pub will_signal : Pc → Bool
will_signal owner = true
will_signal check = true
will_signal clear = true
will_signal signal = true
will_signal _ = false

-- The count of a reset is one that the event has had, and the event is not set while it has it.
pub record IsRecent (m : IbMutex) (c : ℕ) : Type 0 where
  pub positive : 1 ≤ c
  pub past : c ≤ m.event.signal_count
  pub unset : c ≡ m.event.signal_count → m.event.is_set ≡ false

pub record Inv (s : System) : Type 0 where
  -- the lock word is not 0 exactly while a thread owns the mutex, and that is one thread
  pub taken : (i : ℕ) → s.pc i ≡ owner → s.mutex.lock_word ≢ 0
  pub owned : s.mutex.lock_word ≢ 0 → (i : ℕ) × (s.pc i ≡ owner)
  pub unique : (i j : ℕ) → s.pc i ≡ owner → s.pc j ≡ owner → i ≡ j
  pub started : 1 ≤ s.mutex.event.signal_count
  pub recent : (i c : ℕ) → count_of (s.pc i) ≡ some c → IsRecent s.mutex c
  -- a thread that announced itself and was not signalled is seen, or is about to be signalled
  pub seen :
      (i c : ℕ)
      → announced (s.pc i) ≡ true
      → count_of (s.pc i) ≡ some c
      → c ≡ s.mutex.event.signal_count
      → (s.mutex.waiters ≢ 0) ⊎ ((j : ℕ) × (s.pc j ≡ signal))
  -- when it sleeps, some thread has yet to come to the signal
  pub served :
      (i c : ℕ)
      → s.pc i ≡ sleep c
      → c ≡ s.mutex.event.signal_count
      → (j : ℕ) × (will_signal (s.pc j) ≡ true)

-- The premise of a move, for the catch-all clauses below, which cannot name it.
abbrev Guard : {r : ℕ} {m m' : IbMutex} {p p' : Pc} → Move r m p m' p' → Type 0
Guard {m} (enter _) = m.lock_word ≡ 0
Guard {m} (busy _) = m.lock_word ≢ 0
Guard {m} (nowait_busy _) = m.lock_word ≢ 0
Guard {m} (attempt_won _) = m.lock_word ≡ 0
Guard {m} (attempt_again _ _) = m.lock_word ≢ 0
Guard {m} (attempt_lost _ _) = m.lock_word ≢ 0
Guard {m} (retry_won _) = m.lock_word ≡ 0
Guard {m} (retry_again _ _) = m.lock_word ≢ 0
Guard {m} (retry_lost _ _) = m.lock_word ≢ 0
Guard {m} (nobody _) = m.waiters ≡ 0
Guard {m} (somebody _) = m.waiters ≢ 0
Guard _ = Unit

guard : {r : ℕ} {m m' : IbMutex} {p p' : Pc} (mv : Move r m p m' p') → Guard mv
guard (enter g) = g
guard (busy g) = g
guard (nowait_busy g) = g
guard (attempt_won g) = g
guard (attempt_again g _) = g
guard (attempt_lost g _) = g
guard (retry_won g) = g
guard (retry_again g _) = g
guard (retry_lost g _) = g
guard (nobody g) = g
guard (somebody g) = g
guard _ = tt

module _ {r : ℕ} {s : System} (inv : Inv s) (t : ℕ) where
  open inv use {taken, owned, unique, started, recent, seen, served}

  Move-taken :
      {p p' : Pc} {m' : IbMutex}
      → Move r s.mutex p m' p'
      → s.pc t ≡ p
      → (i : ℕ) → update s.pc t p' i ≡ owner
      → m'.lock_word ≢ 0
  Move-taken (enter g) e i q = ground arith
  Move-taken mv e i q = ground (arith, guard mv, taken i, taken t, unique t i)

  Move-unique :
      {p p' : Pc} {m' : IbMutex}
      → Move r s.mutex p m' p'
      → s.pc t ≡ p
      → (i j : ℕ) → update s.pc t p' i ≡ owner
      → update s.pc t p' j ≡ owner
      → i ≡ j
  Move-unique (enter g) e i j q w = ground (arith, taken i, taken j)
  Move-unique mv e i j q w = ground (arith, guard mv, taken i, taken j, unique i j)

  Move-owned :
      {p p' : Pc} {m' : IbMutex}
      → Move r s.mutex p m' p'
      → s.pc t ≡ p
      → m'.lock_word ≢ 0
      → (i : ℕ) × (update s.pc t p' i ≡ owner)
  Move-owned (enter g) e h = (t, ground arith)
  Move-owned (attempt_won g) e h = (t, ground arith)
  Move-owned (retry_won g) e h = (t, ground arith)
  Move-owned leave e h = absurd (h refl)
  Move-owned mv e h = let (i, held) = owned (ground (arith, guard mv)) in (i, ground arith)

  Move-started : {p p' : Pc} {m' : IbMutex} → Move r s.mutex p m' p' → 1 ≤ m'.event.signal_count
  unfolding os_event_set os_event_reset
  Move-started (enter g) = started
  Move-started mv = ground (arith, started)

  Move-IsRecent :
      {p p' : Pc} {m' : IbMutex}
      → Move r s.mutex p m' p'
      → s.pc t ≡ p
      → (i c : ℕ) → count_of (update s.pc t p' i) ≡ some c
      → IsRecent m' c
  unfolding os_event_set os_event_reset wait_count
  Move-IsRecent (enter g) e i c q = ground (arith, recent i c)
  Move-IsRecent (retry_lost {c = k} g h) e i c q = ground (arith, recent i c, recent t k)
  Move-IsRecent mv e i c q = ground (arith, started, recent i c, recent t c)

  Move-seen :
      {p p' : Pc} {m' : IbMutex}
      → Move r s.mutex p m' p'
      → s.pc t ≡ p
      → (i c : ℕ) → announced (update s.pc t p' i) ≡ true
      → count_of (update s.pc t p' i) ≡ some c
      → c ≡ m'.event.signal_count
      → (m'.waiters ≢ 0) ⊎ ((j : ℕ) × (update s.pc t p' j ≡ signal))
  unfolding os_event_set os_event_reset wait_count
  Move-seen set_waiters e i c a q h = inl (λ z. absurd (omega (arith, z)))
  Move-seen clear_waiters e i c a q h = inr (t, ground arith)
  Move-seen set_event e i c a q h = absurd (ground (arith, recent i c))
  Move-seen (retry_lost {c = k} g h') e i c a q h =
      elim (seen i c (ground arith) (ground (arith, recent t k)) h) [
        | inl some_wait ↦ inl some_wait
        | inr (j, at) ↦ inr (j, ground arith)
      ]
  Move-seen mv e i c a q h = elim (seen i c (ground arith) (ground arith) h) [
    | inl some_wait ↦ inl some_wait
    | inr (j, at) ↦ inr (j, ground arith)
  ]

  Move-served :
      {p p' : Pc} {m' : IbMutex}
      → Move r s.mutex p m' p'
      → s.pc t ≡ p
      → (i c : ℕ) → update s.pc t p' i ≡ sleep c
      → c ≡ m'.event.signal_count
      → (j : ℕ) × (will_signal (update s.pc t p' j) ≡ true)
  unfolding os_event_set os_event_reset wait_count
  Move-served set_event e i c q h = absurd (ground (arith, recent i c))
  Move-served (enter g) e i c q h = (t, ground arith)
  Move-served (attempt_won g) e i c q h = (t, ground arith)
  Move-served (retry_won g) e i c q h = (t, ground arith)
  Move-served leave e i c q h = (t, ground arith)
  Move-served (somebody g) e i c q h = (t, ground arith)
  Move-served clear_waiters e i c q h = (t, ground arith)
  Move-served (retry_lost {c = k} g h') e i c q h = let (j, at) = owned g in (j, ground arith)
  Move-served (nobody g) e i c q h = elim (seen i c (ground arith) (ground arith) h) [
    | inl some_wait ↦ absurd (some_wait g)
    | inr (j, at) ↦ (j, ground arith)
  ]
  Move-served mv e i c q h = let (j, at) = served i c (ground arith) h in (j, ground arith)

  Move-Inv :
      {m' : IbMutex} {p' : Pc}
      → Move r s.mutex (s.pc t) m' p'
      → Inv (record { mutex = m'; pc = update s.pc t p' })
  Move-Inv mv = record {
    taken = Move-taken mv refl;
    owned = Move-owned mv refl;
    unique = Move-unique mv refl;
    started = Move-started mv;
    recent = Move-IsRecent mv refl;
    seen = Move-seen mv refl;
    served = Move-served mv refl;
  }

pub Inv-init : Inv init
unfolding mutex_create_func os_event_create
Inv-init = record {
  taken = λ i q. cc;
  owned = λ h. absurd (h refl);
  unique = λ i j q w. cc;
  started = omega arith;
  recent = λ i c q. cc;
  seen = λ i c a q h. cc;
  served = λ i c q h. cc;
}

-- Every step keeps the invariant.
pub Step-Inv : {r : ℕ} {s u : System} → Step r s u → Inv s → Inv u
Step-Inv (pick t mv) inv = Move-Inv inv t mv

pub Reach-Inv : {r : ℕ} {s : System} → Reach r s → Inv s
Reach-Inv start = Inv-init
Reach-Inv (later p st) = Step-Inv st (Reach-Inv p)
