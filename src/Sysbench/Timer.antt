-- ===== src/Sysbench/Timer.antt =====
-- The timers of mysql/bench/sysbench-0.4.12/sysbench/sb_timer.c. The clock is an argument; a time of
-- it is in nanoseconds, and the times of a timer are unsigned 64-bit numbers.
use htmsql.Prelude.{
  ℕ, ◌+◌, ◌-◌, ◌*◌, ◌%◌, ◌/◌, ◌^◌, ◌<◌, ◌≤◌, ◌≡◌, subst, false, if◌then◌else◌, ◌==◌, ltb, arith,
  Option, none, some,
}
use native.Mathlib.Nat.{le-div_iff_mul-le, div-le_of_le-mul, add-mul, mul-le-mul_left, mod-eq_of_lt}

-- The states of a timer; `uninitialized` stands for what is none of the other three.
pub data TimerState : Type 0 where
  uninitialized initialized stopped running : TimerState

pub record SbTimer : Type 0 where
  pub time_start : ℕ
  pub my_time : ℕ
  pub min_time : ℕ
  pub max_time : ℕ
  pub sum_time : ℕ
  pub events : ℕ
  pub state : TimerState

-- The difference of two times as an unsigned 64-bit number
abbrev pub elapsed : ℕ → ℕ → ℕ
elapsed start now = (now + (2 ^ 64 - start % 2 ^ 64)) % 2 ^ 64

unfoldable pub sb_timer_init : SbTimer → SbTimer
sb_timer_init t = record t {
  min_time = 2 ^ 64 - 1;
  max_time = 0;
  sum_time = 0;
  events = 0;
  state = initialized;
}

-- `none` is the call of `abort()`.
unfoldable pub sb_timer_start : SbTimer → ℕ → Option SbTimer
sb_timer_start t now = elim t.state [
  | uninitialized ↦ none
  | _ ↦ some (record t { time_start = now; state = running })
]

abbrev pub add_event : SbTimer → ℕ → SbTimer
add_event t d = record t {
  my_time = d;
  events = (t.events + 1) % 2 ^ 64;
  sum_time = (t.sum_time + d) % 2 ^ 64;
  min_time = if ltb d t.min_time then d else t.min_time;
  max_time = if ltb t.max_time d then d else t.max_time;
  state = stopped;
}

unfoldable pub sb_timer_stop : SbTimer → ℕ → Option SbTimer
sb_timer_stop t now = elim t.state [
  | uninitialized ↦ none
  | _ ↦ some (add_event t (elapsed t.time_start now))
]

unfoldable pub sb_timer_current : SbTimer → ℕ → Option ℕ
sb_timer_current t now = elim t.state [
  | uninitialized ↦ none
  | initialized ↦ some 0
  | stopped ↦ some t.my_time
  | running ↦ some (elapsed t.time_start now)
]

unfoldable pub get_avg_time : SbTimer → ℕ
get_avg_time t = if t.events == 0 then 0 else t.sum_time / t.events

-- `merge_timers`; the fields that it leaves as they were on the stack are the first argument's here.
unfoldable pub merge_timers : SbTimer → SbTimer → SbTimer
merge_timers t u = record t {
  my_time = (t.my_time + u.my_time) % 2 ^ 64;
  sum_time = (t.sum_time + u.sum_time) % 2 ^ 64;
  events = (t.events + u.events) % 2 ^ 64;
  max_time = if ltb u.max_time t.max_time then t.max_time else u.max_time;
  min_time = if ltb t.min_time u.min_time then t.min_time else u.min_time;
}

-- The sum lies between the number of events times the shortest and times the longest one.
pub record IsMeasured (t : SbTimer) : Type 0 where
  pub low : t.events * t.min_time ≤ t.sum_time
  pub high : t.sum_time ≤ t.events * t.max_time

pub init-IsMeasured : (t : SbTimer) → IsMeasured (sb_timer_init t)
unfolding sb_timer_init
init-IsMeasured t = record { low = omega arith; high = omega arith }

-- A sum and a number of events fit in 64 bits.
pub record Fits (events sum : ℕ) : Type 0 where
  pub events_fit : events < 2 ^ 64
  pub sum_fits : sum < 2 ^ 64

mul_mono : (k : ℕ) {a b : ℕ} → a ≤ b → k * a ≤ k * b
mul_mono k h = mul-le-mul_left k h

-- The smaller and the larger of two numbers, as the code takes them
abbrev smaller : ℕ → ℕ → ℕ
smaller a b = if ltb a b then a else b

abbrev larger : ℕ → ℕ → ℕ
larger a b = if ltb b a then a else b

combined-low : (m n a b s u : ℕ) → m * a ≤ s → n * b ≤ u → (m + n) * smaller a b ≤ s + u
combined-low m n a b s u h k =
    let x : m * smaller a b ≤ m * a = mul_mono m (ground arith) in
    let y : n * smaller a b ≤ n * b = mul_mono n (ground arith) in
    omega (arith, add-mul m n (smaller a b), x, y, h, k)

combined-high : (m n a b s u : ℕ) → s ≤ m * a → u ≤ n * b → s + u ≤ (m + n) * larger a b
combined-high m n a b s u h k =
    let x : m * a ≤ m * larger a b = mul_mono m (ground arith) in
    let y : n * b ≤ n * larger a b = mul_mono n (ground arith) in
    omega (arith, add-mul m n (larger a b), x, y, h, k)

-- Merging two timers whose sums lie between their number of events times the shortest and times
-- the longest one gives such a timer, as long as the numbers fit in 64 bits.
pub merge_timers-IsMeasured :
    {t u : SbTimer}
    → IsMeasured t
    → IsMeasured u
    → Fits (t.events + u.events) (t.sum_time + u.sum_time)
    → IsMeasured (merge_timers t u)
unfolding merge_timers
merge_timers-IsMeasured {t} {u} a b f = record {
  low =
      rw (mod-eq_of_lt f.events_fit, mod-eq_of_lt f.sum_fits)
        (combined-low t.events u.events t.min_time u.min_time t.sum_time u.sum_time a.low b.low);
  high =
      rw (mod-eq_of_lt f.events_fit, mod-eq_of_lt f.sum_fits)
        (combined-high t.events u.events t.max_time u.max_time t.sum_time u.sum_time a.high b.high);
}

stopped-event :
    (s : TimerState) {t u : SbTimer} → elim s [ uninitialized ↦ none | _ ↦ some t ] ≡ some u → t ≡ u
stopped-event uninitialized h = cc
stopped-event initialized h = cc
stopped-event stopped h = cc
stopped-event running h = cc

-- Stopping a timer keeps its sum between the number of events times the shortest and times the
-- longest one, as long as the number of events and the sum fit in 64 bits.
pub sb_timer_stop-IsMeasured :
    {t u : SbTimer} (now : ℕ)
    → IsMeasured t
    → Fits (t.events + 1) (t.sum_time + elapsed t.time_start now)
    → sb_timer_stop t now ≡ some u
    → IsMeasured u
unfolding sb_timer_stop
sb_timer_stop-IsMeasured {t} now a f h =
    let d = elapsed t.time_start now in
    let low = combined-low 1 t.events d t.min_time d t.sum_time (omega arith) a.low in
    let high = combined-high 1 t.events d t.max_time d t.sum_time (omega arith) a.high in
    subst IsMeasured (stopped-event t.state h) (record {
      low = rw (mod-eq_of_lt f.events_fit, mod-eq_of_lt f.sum_fits) (omega (arith, low));
      high = rw (mod-eq_of_lt f.events_fit, mod-eq_of_lt f.sum_fits) (omega (arith, high));
    })

-- The average time of a timer with a sum between its number of events times the shortest and times
-- the longest one and at least one event lies between its shortest and its longest time.
pub get_avg_time-between :
    {t : SbTimer}
    → IsMeasured t
    → 1 ≤ t.events
    → (t.min_time ≤ get_avg_time t) × (get_avg_time t ≤ t.max_time)
unfolding get_avg_time
get_avg_time-between {t} a h =
    let e : (t.events == 0) ≡ false = ground arith in
    rw e (
      (le-div_iff_mul-le {k = t.events} {x = t.min_time} {y = t.sum_time} h).1
          (omega (arith, a.low)),
      div-le_of_le-mul t.events (omega (arith, a.high)),
    )
