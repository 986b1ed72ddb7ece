-- ===== src/Innodb/QueryTests.antt =====
-- The queries of the latching order at a thread that holds btr_search_latch alone.
use htmsql.Prelude.{ℕ, ◌≡◌, ◌⊎◌, refl, true, false, List, [], ◌∷◌, none, some, if◌then◌else◌, ◌==◌}
use htmsql.Innodb.Levels.{SyncArr, ulint_undefined}
use htmsql.Innodb.Levels.Order.{sync_search_sys}
use htmsql.Innodb.Levels.Bound.{Holds}
use htmsql.Innodb.Levels.Threads.{SyncThread, Globals, sync_thread_level_arrays_find_slot}
use htmsql.Innodb.Levels.Queries.{sync_thread_levels_nonempty_gen, sync_thread_levels_nonempty_trx}
use htmsql.Innodb.Levels.Queries.Answers.{
  IsDictLevel, sync_thread_levels_nonempty_gen_lem, sync_thread_levels_nonempty_trx_lem,
}

abbrev globals : Globals
globals = record {
  sync_order_checks_on = true;
  srv_is_being_started = false;
  buf_debug_prints = false;
  sync_thread_mutex = 1;
  mutex_list_mutex = 2;
  rw_lock_debug_mutex = 3;
  rw_lock_list_mutex = 4;
}

abbrev searching : SyncArr
searching = record {
  in_use = 1;
  n_elems = 1;
  max_elems = 10000;
  next_free = ulint_undefined;
  elems = λ i.
      if i == 0
      then record { latch = some 7; level = sync_search_sys }
      else record { latch = none; level = 0 };
}

abbrev threads : List SyncThread
threads = record { id = 5; levels = some searching } ∷ []

threads-find_slot : sync_thread_level_arrays_find_slot threads 5 ≡ some (0, searching)
unfolding sync_thread_level_arrays_find_slot
threads-find_slot = refl

sync_thread_levels_nonempty_gen_lem_example :
    ((sync_thread_levels_nonempty_gen globals threads 5 true ≡ some none)
      × ((level : ℕ) → Holds searching level → (true ≡ true) × IsDictLevel level))
    ⊎ ((sync_thread_levels_nonempty_gen globals threads 5 true ≡ none)
        × ((level : ℕ) × Holds searching level × ¬ ((true ≡ true) × IsDictLevel level)))
sync_thread_levels_nonempty_gen_lem_example =
    sync_thread_levels_nonempty_gen_lem globals threads 5 0 searching refl threads-find_slot true

sync_thread_levels_nonempty_trx_lem_example :
    ((sync_thread_levels_nonempty_trx globals threads 5 true ≡ some none)
      × ((level : ℕ) → Holds searching level → (true ≡ true) × (level ≡ sync_search_sys))
      × ((true ≡ false) ⊎ Holds searching sync_search_sys))
    ⊎ ((sync_thread_levels_nonempty_trx globals threads 5 true ≡ none)
        × (((level : ℕ) × Holds searching level × ¬ ((true ≡ true) × (level ≡ sync_search_sys)))
            ⊎ ((true ≡ true) × ¬ Holds searching sync_search_sys)))
sync_thread_levels_nonempty_trx_lem_example =
    sync_thread_levels_nonempty_trx_lem globals threads 5 0 searching refl threads-find_slot true
