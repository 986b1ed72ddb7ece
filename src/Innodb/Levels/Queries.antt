-- ===== src/Innodb/Levels/Queries.antt =====
-- sync_thread_levels_contains, sync_thread_levels_nonempty_gen and sync_thread_levels_nonempty_trx of
-- sync0sync.cc. The outer None of the last two is the end of the process at `ut_a` or `ut_error`; an
-- inner one, and that of the first, is NULL.
pub mod Answers
use htmsql.Prelude.{
  ℕ, zero, suc, ◌+◌, ◌<◌, ◌≡◌, ◌⊎◌, refl, Bool, true, false, not, List, Option, none, some, arith,
  inl, inr, Bool-cases, Option-cases, ◌||◌, ◌&&◌, if◌then◌else◌, ◌==◌,
}
use htmsql.Innodb.Levels.{SyncLevel, SyncArr, any_from, at_level, is_null}
use htmsql.Innodb.Levels.Order.{sync_dict, sync_dict_operation, sync_fts_cache, sync_search_sys}
use htmsql.Innodb.Levels.Threads.{SyncThread, Globals, sync_thread_level_arrays_find_slot}

-- The latch of the first of `n` cells from `i` on that passes the test
unfoldable pub first_latch : (SyncLevel → Bool) → (ℕ → SyncLevel) → ℕ → ℕ → Option ℕ
first_latch test elems i zero = none
first_latch test elems i (suc n) =
    let rest = first_latch test elems (i + 1) n in if test (elems i) then (elems i).latch else rest

unfoldable pub sync_thread_levels_contains : Globals → List SyncThread → ℕ → ℕ → Option ℕ
sync_thread_levels_contains g ts me level =
    if g.sync_order_checks_on
    then elim (sync_thread_level_arrays_find_slot ts me) [
      | none ↦ none
      | some (i, a) ↦ first_latch (at_level level) a.elems 0 a.n_elems
    ]
    else none

-- A latch, of a level that the query does not let pass
abbrev pub counts : (ℕ → Bool) → SyncLevel → Bool
counts refused s = not (is_null s.latch) && refused s.level

-- From the lookup of the slot on, for both of the next two
unfoldable pub nonempty : List SyncThread → ℕ → (ℕ → Bool) → Option (Option ℕ)
nonempty ts me refused = elim (sync_thread_level_arrays_find_slot ts me) [
  | none ↦ some none
  | some (i, a) ↦ if any_from (counts refused) a.elems 0 a.n_elems then none else some none
]

abbrev pub not_for_dict : Bool → ℕ → Bool
not_for_dict dict_mutex_allowed level =
    not dict_mutex_allowed
    || (not (level == sync_dict)
        && not (level == sync_dict_operation)
        && not (level == sync_fts_cache))

unfoldable pub sync_thread_levels_nonempty_gen :
    Globals → List SyncThread → ℕ → Bool → Option (Option ℕ)
sync_thread_levels_nonempty_gen g ts me dict_mutex_allowed =
    if g.sync_order_checks_on then nonempty ts me (not_for_dict dict_mutex_allowed) else some none

abbrev pub not_for_search : Bool → ℕ → Bool
not_for_search has_search_latch level = not has_search_latch || not (level == sync_search_sys)

unfoldable pub sync_thread_levels_nonempty_trx :
    Globals → List SyncThread → ℕ → Bool → Option (Option ℕ)
sync_thread_levels_nonempty_trx g ts me has_search_latch =
    if g.sync_order_checks_on
    then if not has_search_latch
        || not (is_null (sync_thread_levels_contains g ts me sync_search_sys))
      then nonempty ts me (not_for_search has_search_latch)
      else none
    else some none
