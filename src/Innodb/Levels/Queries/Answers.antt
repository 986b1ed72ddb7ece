-- ===== src/Innodb/Levels/Queries/Answers.antt =====
-- What the queries of sync0sync.cc answer of the latches that a thread holds.
use htmsql.Prelude.{
  ℕ, zero, suc, ◌+◌, ◌<◌, ◌≡◌, ◌⊎◌, refl, Bool, true, false, List, none, some, arith, inl, inr,
  Bool-cases, Option-cases, ◌==◌,
}
use htmsql.Innodb.Levels.{SyncLevel, SyncArr, any_from, at_level}
use htmsql.Innodb.Levels.Order.{sync_dict, sync_dict_operation, sync_fts_cache, sync_search_sys}
use htmsql.Innodb.Levels.Bound.{Holds, any_from-true, any_from-of, held-parts}
use htmsql.Innodb.Levels.Threads.{SyncThread, Globals, sync_thread_level_arrays_find_slot}
use htmsql.Innodb.Levels.Queries.{
  first_latch, sync_thread_levels_contains, counts, nonempty, not_for_dict, not_for_search,
  sync_thread_levels_nonempty_gen, sync_thread_levels_nonempty_trx,
}

refused-true :
    (a : SyncArr) (refused : ℕ → Bool)
    → any_from (counts refused) a.elems 0 a.n_elems ≡ true
    → (level : ℕ) × Holds a level × (refused level ≡ true)
refused-true a refused found =
    let (i, lo, hi, t) = any_from-true (counts refused) a.elems 0 a.n_elems found in
    let (l, at, out) = held-parts (refused (a.elems i).level) (a.elems i) t in
    (
      (a.elems i).level,
      record { cell = i; latch = l; in_range = omega arith; at = at; has = refl },
      out,
    )

refused-false :
    (a : SyncArr) (refused : ℕ → Bool)
    → any_from (counts refused) a.elems 0 a.n_elems ≡ false
    → (level : ℕ) → Holds a level
    → refused level ≡ false
refused-false a refused absent level h = elim (Bool-cases (refused level)) [
  | inr e ↦ e
  | inl e ↦
      let found =
        any_from-of (counts refused) a.elems 0 a.n_elems h.cell (omega arith)
          (omega (arith, h.in_range)) (rw (h.at, h.has) e) in
      absurd (ground (arith, found))
]

first_latch-some :
    (level : ℕ) (elems : ℕ → SyncLevel) (i n l : ℕ)
    → first_latch (at_level level) elems i n ≡ some l
    → (c : ℕ) × (c < i + n) × ((elems c).latch ≡ some l) × ((elems c).level ≡ level)
unfolding first_latch
first_latch-some level elems i zero l h = cc
first_latch-some level elems i (suc n) l h = elim (Bool-cases (at_level level (elems i))) [
  | inl e ↦ (i, omega arith, rw e at h, ground (arith, e))
  | inr e ↦
      let (c, lt, at, has) = first_latch-some level elems (i + 1) n l (rw e at h) in
      (c, omega arith, at, has)
]

first_latch-none :
    (level : ℕ) (elems : ℕ → SyncLevel) (i n : ℕ)
    → first_latch (at_level level) elems i n ≡ none
    → any_from (at_level level) elems i n ≡ false
unfolding first_latch any_from
first_latch-none level elems i zero h = refl
first_latch-none level elems i (suc n) h = elim (Bool-cases (at_level level (elems i))) [
  | inl e ↦
      let (l, at, same) = held-parts ((elems i).level == level) (elems i) e in
      absurd (cc (at, (rw e at h)))
  | inr e ↦ rw e (first_latch-none level elems (i + 1) n (rw e at h))
]

-- The levels of the dictionary
pub IsDictLevel : ℕ → Type 0
IsDictLevel level = (level ≡ sync_dict) ⊎ ((level ≡ sync_dict_operation) ⊎ (level ≡ sync_fts_cache))

dict-passes :
    (allowed : Bool) (level : ℕ)
    → not_for_dict allowed level ≡ false
    → (allowed ≡ true) × IsDictLevel level
unfolding IsDictLevel
dict-passes allowed level h = ground arith

dict-refused :
    (allowed : Bool) (level : ℕ)
    → not_for_dict allowed level ≡ true
    → ¬ ((allowed ≡ true) × IsDictLevel level)
unfolding IsDictLevel
dict-refused allowed level h (e, is_dict) = ground arith

module _ (g : Globals) (ts : List SyncThread) (me i : ℕ) (a : SyncArr)
    (on : g.sync_order_checks_on ≡ true)
    (slot : sync_thread_level_arrays_find_slot ts me ≡ some (i, a)) where
  -- Where the checks are on and the thread has an array, sync_thread_levels_contains returns a latch of
  -- the level that the thread holds, and NULL exactly where it holds none.
  pub sync_thread_levels_contains_lem :
      (level : ℕ)
      → ((h : Holds a level) × (sync_thread_levels_contains g ts me level ≡ some h.latch))
        ⊎ ((sync_thread_levels_contains g ts me level ≡ none) × ¬ Holds a level)
  unfolding sync_thread_levels_contains
  sync_thread_levels_contains_lem level =
      elim (Option-cases (first_latch (at_level level) a.elems 0 a.n_elems)) [
        | inr (l, found) ↦
            let (c, lt, at, has) = first_latch-some level a.elems 0 a.n_elems l found in
            inl (
              record { cell = c; latch = l; in_range = omega arith; at = at; has = has },
              rw (on, slot, found) refl,
            )
        | inl absent ↦ inr (
          rw (on, slot, absent) refl,
          (λ h. absurd (
              ground (
                arith,
                first_latch-none level a.elems 0 a.n_elems absent,
                any_from-of (at_level level) a.elems 0 a.n_elems h.cell (omega arith)
                    (omega (arith, h.in_range)) (rw (h.at, h.has) (ground arith)),
              ))),
        )
      ]

  nonempty-Holds :
      (refused : ℕ → Bool)
      → ((nonempty ts me refused ≡ some none)
          × ((level : ℕ) → Holds a level → refused level ≡ false))
        ⊎ ((nonempty ts me refused ≡ none) × ((level : ℕ) × Holds a level × (refused level ≡ true)))
  unfolding nonempty
  nonempty-Holds refused = elim (Bool-cases (any_from (counts refused) a.elems 0 a.n_elems)) [
    | inl found ↦ inr (rw (nonempty, slot, found) refl, refused-true a refused found)
    | inr absent ↦ inl (rw (nonempty, slot, absent) refl, refused-false a refused absent)
  ]

  -- Where the checks are on and the thread has an array, sync_thread_levels_nonempty_gen returns NULL
  -- exactly where the thread holds no latch but those of the dictionary, and these only where they are
  -- allowed; where it holds another one, the process ends.
  pub sync_thread_levels_nonempty_gen_lem :
      (dict_mutex_allowed : Bool)
      → ((sync_thread_levels_nonempty_gen g ts me dict_mutex_allowed ≡ some none)
          × ((level : ℕ) → Holds a level → (dict_mutex_allowed ≡ true) × IsDictLevel level))
        ⊎ ((sync_thread_levels_nonempty_gen g ts me dict_mutex_allowed ≡ none)
            × ((level : ℕ) × Holds a level × ¬ ((dict_mutex_allowed ≡ true) × IsDictLevel level)))
  unfolding sync_thread_levels_nonempty_gen
  sync_thread_levels_nonempty_gen_lem dict_mutex_allowed =
      elim (nonempty-Holds (not_for_dict dict_mutex_allowed)) [
        | inl (run, all) ↦
            inl (rw (on, run) refl, λ level h. dict-passes dict_mutex_allowed level (all level h))
        | inr (run, (level, h, out)) ↦
            inr (rw (on, run) refl, (level, h, dict-refused dict_mutex_allowed level out))
      ]

  -- Where the checks are on and the thread has an array, sync_thread_levels_nonempty_trx returns NULL
  -- exactly where the thread holds nothing, or, where it is to hold btr_search_latch, that latch and
  -- no other level; in every other case the process ends.
  pub sync_thread_levels_nonempty_trx_lem :
      (has_search_latch : Bool)
      → ((sync_thread_levels_nonempty_trx g ts me has_search_latch ≡ some none)
          × ((level : ℕ) → Holds a level → (has_search_latch ≡ true) × (level ≡ sync_search_sys))
          × ((has_search_latch ≡ false) ⊎ Holds a sync_search_sys))
        ⊎ ((sync_thread_levels_nonempty_trx g ts me has_search_latch ≡ none)
            × (((level : ℕ) × Holds a level
                  × ¬ ((has_search_latch ≡ true) × (level ≡ sync_search_sys)))
                ⊎ ((has_search_latch ≡ true) × ¬ Holds a sync_search_sys)))
  unfolding sync_thread_levels_nonempty_trx
  sync_thread_levels_nonempty_trx_lem false = elim (nonempty-Holds (not_for_search false)) [
    | inl (run, all) ↦
        inl (rw (on, run) refl, (λ level h. absurd (ground (arith, all level h))), inl refl)
    | inr (run, (level, h, out)) ↦ inr (rw (on, run) refl, inl (level, h, λ p. cc (p.0)))
  ]
  sync_thread_levels_nonempty_trx_lem true =
      elim (sync_thread_levels_contains_lem sync_search_sys) [
        | inr (missing, held) ↦ inr (simp (missing, on), inr (refl, held))
        | inl (held, found) ↦ elim (nonempty-Holds (not_for_search true)) [
          | inl (run, all) ↦
              inl
                (simp (found, on, run), (λ level h. (refl, ground (arith, all level h))), inr held)
          | inr (run, (level, h, out)) ↦
              inr (simp (found, on, run), inl (level, h, λ p. (ground (arith, p.1))))
        ]
      ]
