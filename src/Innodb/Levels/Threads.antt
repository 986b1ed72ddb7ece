-- ===== src/Innodb/Levels/Threads.antt =====
-- sync_thread_add_level and sync_thread_reset_level of sync0sync.cc, over the slots of the threads.
-- The mutex that guards the slots is taken at the start and released at the end, so each call is one
-- step. None is a failed assertion, or the write through NULL when all slots are taken.
use htmsql.Prelude.{
  ℕ, zero, suc, ◌+◌, ◌≤◌, ◌<◌, ◌≡◌, ◌∙◌, ◌≢◌, Bool, true, false, List, [], ◌∷◌, Option, none, some,
  arith, inl, inr, Bool-cases, Option-cases, ◌||◌, if◌then◌else◌, ◌==◌, set,
}
use htmsql.Innodb.Levels.{
  SyncLevel, SyncArr, new_array, order_ok, reserve, free_cell, find_from, holds_latch,
}
use htmsql.Innodb.Levels.Order.{sync_level_varying}
use htmsql.Innodb.Levels.Cells.{IsValid}
use htmsql.Innodb.Levels.Reserve.{Reserved, reserve-Reserved}
use htmsql.Innodb.Levels.Free.{Freed, free_cell-Freed}

-- `sync_thread_t`
pub record SyncThread : Type 0 where
  pub id : ℕ
  pub levels : Option SyncArr

-- The globals that the functions read; the last four are addresses of mutexes.
pub record Globals : Type 0 where
  pub sync_order_checks_on : Bool
  pub srv_is_being_started : Bool
  pub buf_debug_prints : Bool
  pub sync_thread_mutex : ℕ
  pub mutex_list_mutex : ℕ
  pub rw_lock_debug_mutex : ℕ
  pub rw_lock_list_mutex : ℕ

abbrev shift : Option (ℕ × SyncArr) → Option (ℕ × SyncArr)
shift none = none
shift (some (i, a)) = some (suc i, a)

-- A slot that is found: its index and its array.
unfoldable pub sync_thread_level_arrays_find_slot : List SyncThread → ℕ → Option (ℕ × SyncArr)
sync_thread_level_arrays_find_slot [] me = none
sync_thread_level_arrays_find_slot (t ∷ ts) me =
    let rest = shift (sync_thread_level_arrays_find_slot ts me) in
    elim t.levels [ none ↦ rest | some a ↦ if t.id == me then some (0, a) else rest ]

unfoldable pub sync_thread_level_arrays_find_free : List SyncThread → Option ℕ
sync_thread_level_arrays_find_free [] = none
sync_thread_level_arrays_find_free (t ∷ ts) =
    let rest = sync_thread_level_arrays_find_free ts in
    elim t.levels [ none ↦ some 0 | some a ↦ elim rest [ none ↦ none | some i ↦ some (suc i) ] ]

-- The array of the calling thread, in a slot that is taken for it if it has none.
unfoldable pub own_slot : List SyncThread → ℕ → Option (ℕ × SyncArr)
own_slot ts me = elim (sync_thread_level_arrays_find_slot ts me) [
  | some s ↦ some s
  | none ↦ elim (sync_thread_level_arrays_find_free ts) [
    | none ↦ none
    | some i ↦ some (i, new_array)
  ]
]

abbrev is_exempt : Globals → ℕ → Bool
is_exempt g latch =
    (latch == g.sync_thread_mutex)
    || (latch == g.mutex_list_mutex)
    || (latch == g.rw_lock_debug_mutex)
    || (latch == g.rw_lock_list_mutex)

abbrev put : List SyncThread → ℕ → ℕ → SyncArr → List SyncThread
put ts i me a = set ts i (record { id = me; levels = some a })

-- From the lookup of the slot on.
unfoldable pub enter_level : Globals → List SyncThread → ℕ → ℕ → ℕ → Bool → Option (List SyncThread)
enter_level g ts me latch level relock = elim (own_slot ts me) [
  | none ↦ none
  | some (i, a) ↦
      if relock || order_ok g.srv_is_being_started g.buf_debug_prints a level
      then elim (reserve a latch level) [ none ↦ none | some r ↦ some (put ts i me r) ]
      else none
]

unfoldable pub sync_thread_add_level :
    Globals → List SyncThread → ℕ → ℕ → ℕ → Bool → Option (List SyncThread)
sync_thread_add_level g ts me latch level relock =
    if g.sync_order_checks_on
    then if is_exempt g latch
      then some ts
      else if level == sync_level_varying
      then some ts
      else enter_level g ts me latch level relock
    else some ts

-- From the lookup of the slot on; `varying` says that the latch is an rw-lock of varying level.
unfoldable pub leave_level : List SyncThread → ℕ → ℕ → Bool → Option (List SyncThread × Bool)
leave_level ts me latch varying = elim (sync_thread_level_arrays_find_slot ts me) [
  | none ↦ none
  | some (i, a) ↦ elim (find_from latch a.elems 0 a.n_elems) [
    | none ↦ if varying then some (ts, true) else none
    | some c ↦ elim (free_cell a c) [ none ↦ none | some r ↦ some (put ts i me r, true) ]
  ]
]

unfoldable pub sync_thread_reset_level :
    Globals → List SyncThread → ℕ → ℕ → Bool → Option (List SyncThread × Bool)
sync_thread_reset_level g ts me latch varying =
    if g.sync_order_checks_on
    then if is_exempt g latch then some (ts, false) else leave_level ts me latch varying
    else some (ts, false)

-- What the checks look at: the latch is not one of the exempt mutexes, and its level is fixed.
pub record IsChecked (g : Globals) (latch level : ℕ) : Type 0 where
  pub checks : g.sync_order_checks_on ≡ true
  pub ordinary : is_exempt g latch ≡ false
  pub fixed : (level == sync_level_varying) ≡ false

-- A thread with a well-formed array that has room for one more latch: when it takes a latch against
-- the latching order, and does not re-enter it, `sync_thread_add_level` fails an assertion; in every
-- other case it enters the latch in that array and leaves all other slots alone.
pub sync_thread_add_level_lem :
    (g : Globals) (ts : List SyncThread) (me latch level i : ℕ) (relock : Bool) (a : SyncArr)
    → IsChecked g latch level
    → own_slot ts me ≡ some (i, a)
    → IsValid a
    → a.in_use < a.max_elems
    → ((relock || order_ok g.srv_is_being_started g.buf_debug_prints a level) ≡ false
        → sync_thread_add_level g ts me latch level relock ≡ none)
      × ((relock || order_ok g.srv_is_being_started g.buf_debug_prints a level) ≡ true
          → (r : SyncArr) × (sync_thread_add_level g ts me latch level relock
              ≡ some (put ts i me r))
            × Reserved a latch level r)
unfolding enter_level
sync_thread_add_level_lem g ts me latch level i relock a k slot v room =
    let (r, run, after) = reserve-Reserved a latch level v room in
    (
      (λ bad. checked ∙ rw (slot, enter_level, bad)),
      (λ good. (r, checked ∙ rw (slot, enter_level, good, run), after)),
    )
  where
    checked :
        sync_thread_add_level g ts me latch level relock ≡ enter_level g ts me latch level relock
    checked = unfold sync_thread_add_level in rw (k.checks, k.ordinary, k.fixed)

-- The array holds the latch.
pub record Owns (a : SyncArr) (latch : ℕ) : Type 0 where
  pub cell : ℕ
  pub in_range : cell < a.n_elems
  pub at : (a.elems cell).latch ≡ some latch

some-inj : {i j : ℕ} → some i ≡ some j → i ≡ j
some-inj p = cc

holds_latch-eq : (latch : ℕ) (s : SyncLevel) → holds_latch latch s ≡ true → s.latch ≡ some latch
holds_latch-eq latch s h = ground arith

find_from-some :
    (latch : ℕ) (elems : ℕ → SyncLevel) (i n : ℕ) (c : ℕ)
    → find_from latch elems i n ≡ some c
    → (c < i + n) × ((elems c).latch ≡ some latch)
unfolding find_from
find_from-some latch elems i zero c h = cc
find_from-some latch elems i (suc n) c h = elim (Bool-cases (holds_latch latch (elems i))) [
  | inl e ↦
      let same : i ≡ c = some-inj (rw e at h) in
      (omega arith, rw (← same) (holds_latch-eq latch (elems i) e))
  | inr e ↦ let (lt, at) = find_from-some latch elems (i + 1) n c (rw e at h) in (omega arith, at)
]

find_from-none :
    (latch : ℕ) (elems : ℕ → SyncLevel) (i n c : ℕ)
    → find_from latch elems i n ≡ none
    → i ≤ c
    → c < i + n
    → (elems c).latch ≢ some latch
unfolding find_from
find_from-none latch elems i zero c h lo hi e = absurd (omega arith)
find_from-none latch elems i (suc n) c h lo hi e = elim (Bool-cases (holds_latch latch (elems i))) [
  | inl here ↦ absurd (some-ne-none (rw here at h))
  | inr not_here ↦ elim (Bool-cases (i == c)) [
    | inl same ↦ ground arith
    | inr other ↦
        find_from-none latch elems (i + 1) n c (rw not_here at h) (ground arith) (omega arith) e
  ]
]
  where
    some-ne-none : some i ≡ none → ⊥
    some-ne-none p = cc

-- For a latch that is checked and a thread with a well-formed array: when the thread holds the latch,
-- `sync_thread_reset_level` returns TRUE, takes one entry of that latch out of its array and leaves
-- all other slots alone; when it does not, the call returns TRUE and changes nothing for an rw-lock
-- of varying level, and fails an assertion for every other latch.
pub sync_thread_reset_level_lem :
    (g : Globals) (ts : List SyncThread) (me latch i : ℕ) (varying : Bool) (a : SyncArr)
    → g.sync_order_checks_on ≡ true
    → is_exempt g latch ≡ false
    → sync_thread_level_arrays_find_slot ts me ≡ some (i, a)
    → IsValid a
    → (Owns a latch
        → (c : ℕ) × (r : SyncArr) × (sync_thread_reset_level g ts me latch varying
            ≡ some (put ts i me r, true))
          × ((a.elems c).latch ≡ some latch)
          × Freed a c r)
      × (¬ Owns a latch
          → sync_thread_reset_level g ts me latch varying
            ≡ (if varying then some (ts, true) else none))
unfolding leave_level
sync_thread_reset_level_lem g ts me latch i varying a on ordinary slot v =
    elim (Option-cases (find_from latch a.elems 0 a.n_elems)) [
      | inr (c, found) ↦
          let (lt, at) = find_from-some latch a.elems 0 a.n_elems c found in
          let (r, run, after) = free_cell-Freed a c latch v (omega arith) at in
          (
            (λ _. (c, r, checked ∙ rw (slot, leave_level, found, run), at, after)),
            (λ not_owned.
                absurd (not_owned (record { cell = c; in_range = omega arith; at = at }))),
          )
      | inl absent ↦ (
        (λ owned. absurd (
            find_from-none latch a.elems 0 a.n_elems owned.cell absent (omega arith)
              (omega (arith, owned.in_range)) owned.at)),
        (λ _. checked ∙ rw (slot, leave_level, absent)),
      )
    ]
  where
    checked : sync_thread_reset_level g ts me latch varying ≡ leave_level ts me latch varying
    checked = unfold sync_thread_reset_level in rw (on, ordinary)
