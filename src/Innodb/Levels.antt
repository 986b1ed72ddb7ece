-- ===== src/Innodb/Levels.antt =====
-- mysql/mysql-5.6.10-beta/storage/innobase/sync/sync0sync.cc under UNIV_SYNC_DEBUG: the latches
-- that a thread holds, with their levels, and the checks of the latching order. A latch is its
-- address, NULL is none. The printing of warnings is left out.
pub mod Order
pub mod Bound
pub mod Deadlock
pub mod Cells
pub mod Reserve
pub mod Free
pub mod Threads
pub mod Queries
use htmsql.Prelude.{
  ℕ, zero, suc, ◌+◌, ◌-◌, ◌^◌, Bool, true, false, not, ◌&&◌, ◌||◌, List, [], ◌∷◌, Option, none,
  some, if◌then◌else◌, ◌==◌, leb, ltb, update,
}
use Order.*

-- `sync_level_t`
pub record SyncLevel : Type 0 where
  pub latch : Option ℕ
  pub level : ℕ

-- `ULINT_UNDEFINED`
abbrev pub ulint_undefined : ℕ
ulint_undefined = 2 ^ 64 - 1

abbrev pub sync_thread_n_levels : ℕ
sync_thread_n_levels = 10000

-- `sync_arr_t`
pub record SyncArr : Type 0 where
  pub in_use : ℕ
  pub n_elems : ℕ
  pub max_elems : ℕ
  pub next_free : ℕ
  pub elems : ℕ → SyncLevel

-- The array that `calloc` gives a new thread.
unfoldable pub new_array : SyncArr
new_array = record {
  in_use = 0;
  n_elems = 0;
  max_elems = sync_thread_n_levels;
  next_free = ulint_undefined;
  elems = λ i. record { latch = none; level = 0 };
}

abbrev pub is_null : Option ℕ → Bool
is_null none = true
is_null (some l) = false

-- Whether the test holds in one of `n` cells from cell `i` on: the shape of every scan of the array.
unfoldable pub any_from : (SyncLevel → Bool) → (ℕ → SyncLevel) → ℕ → ℕ → Bool
any_from test elems i zero = false
any_from test elems i (suc n) =
    let rest = any_from test elems (i + 1) n in if test (elems i) then true else rest

abbrev pub at_most : ℕ → SyncLevel → Bool
at_most limit s = not (is_null s.latch) && leb s.level limit

abbrev pub at_level : ℕ → SyncLevel → Bool
at_level level s = not (is_null s.latch) && (s.level == level)

unfoldable pub sync_thread_levels_g : SyncArr → ℕ → Bool
sync_thread_levels_g arr limit = not (any_from (at_most limit) arr.elems 0 arr.n_elems)

-- The slot that is found is used only as a truth value.
unfoldable pub sync_thread_levels_contain : SyncArr → ℕ → Bool
sync_thread_levels_contain arr level = any_from (at_level level) arr.elems 0 arr.n_elems

abbrev pub one_of : ℕ → List ℕ → Bool
one_of x [] = false
one_of x (y ∷ ys) = (x == y) || one_of x ys

abbrev unchecked_levels : List ℕ
unchecked_levels = sync_no_order_check ∷ sync_extern_storage ∷ sync_tree_node_from_hash ∷ []

-- The levels of which a thread holds one latch at a time, below all that it holds.
abbrev pub plain_levels : List ℕ
plain_levels =
    sync_mem_pool ∷ sync_mem_hash ∷ sync_recv ∷ sync_fts_bg_threads ∷ sync_work_queue
    ∷ sync_fts_optimize ∷ sync_fts_cache ∷ sync_fts_cache_init ∷ sync_log ∷ sync_log_flush_order
    ∷ sync_any_latch ∷ sync_file_format_tag ∷ sync_doublewrite ∷ sync_search_sys ∷ sync_threads
    ∷ sync_lock_sys ∷ sync_lock_wait_sys ∷ sync_trx_sys ∷ sync_ibuf_bitmap_mutex ∷ sync_rseg
    ∷ sync_trx_undo ∷ sync_purge_latch ∷ sync_purge_queue ∷ sync_dict_autoinc_mutex
    ∷ sync_dict_operation ∷ sync_dict_header ∷ sync_trx_i_s_rwlock ∷ sync_trx_i_s_last_read
    ∷ sync_ibuf_mutex ∷ sync_index_online_log ∷ sync_stats_auto_recalc ∷ []

-- The switch of `sync_thread_add_level`: false where an assertion fails. `starting` is
-- srv_is_being_started, `prints` is buf_debug_prints.
module _ (starting prints : Bool) (array : SyncArr) where
  abbrev g : ℕ → Bool
  g = sync_thread_levels_g array

  abbrev contain : ℕ → Bool
  contain = sync_thread_levels_contain array

  unfoldable pub order_ok : ℕ → Bool
  order_ok level =
      if one_of level unchecked_levels
      then true
      else if (level == sync_trx_sys_header) && starting
      then true
      else if (level == sync_trx_sys_header) || one_of level plain_levels
      then g level
      else if level == sync_trx
      then g level || (g (level - 1) && contain sync_lock_sys)
      else if one_of level (sync_buf_flush_list ∷ sync_buf_pool ∷ [])
      then g (level - 1)
      else if one_of level (sync_buf_page_hash ∷ sync_buf_block ∷ [])
      then g level || (g (level - 1) && contain sync_buf_pool)
      else if level == sync_rec_lock
      then if contain sync_lock_sys then g (sync_rec_lock - 1) else g sync_rec_lock
      else if level == sync_ibuf_bitmap
      then if contain sync_ibuf_bitmap_mutex
        then g (sync_ibuf_bitmap - 1)
        else starting || g sync_ibuf_bitmap
      else if level == sync_fsp_page
      then contain sync_fsp
      else if level == sync_fsp
      then contain sync_fsp || g sync_fsp
      else if level == sync_trx_undo_page
      then contain sync_trx_undo || contain sync_rseg || g (level - 1)
      else if level == sync_rseg_header
      then contain sync_rseg
      else if level == sync_rseg_header_new
      then contain sync_fsp_page
      else if level == sync_tree_node
      then contain sync_index_tree || contain sync_dict_operation || g (sync_tree_node - 1)
      else if level == sync_tree_node_new
      then contain sync_fsp_page
      else if level == sync_index_tree
      then g (sync_tree_node - 1)
      else if level == sync_ibuf_tree_node
      then contain sync_ibuf_index_tree || g (sync_ibuf_tree_node - 1)
      else if level == sync_ibuf_tree_node_new
      then contain sync_ibuf_mutex || contain sync_fsp
      else if level == sync_ibuf_index_tree
      then if contain sync_fsp then g (level - 1) else g (sync_ibuf_tree_node - 1)
      else if level == sync_ibuf_pess_insert_mutex
      then g (sync_fsp - 1) && not (contain sync_ibuf_mutex)
      else if level == sync_ibuf_header
      then g (sync_fsp - 1)
        && not (contain sync_ibuf_mutex)
        && not (contain sync_ibuf_pess_insert_mutex)
      else if level == sync_dict
      then prints || g sync_dict
      else false

-- A latch written to cell `i`, or none where an assertion fails.
unfoldable pub take_cell : ℕ → SyncArr → ℕ → ℕ → Option SyncArr
take_cell i array latch level =
    if ltb i array.n_elems && not (i == ulint_undefined) && is_null (array.elems i).latch
    then some (record array {
      in_use = array.in_use + 1;
      elems = update array.elems i (record { latch = some latch; level = level });
    })
    else none

-- From `levels_ok` on: the array with the latch in a new or a free cell.
unfoldable pub reserve : SyncArr → ℕ → ℕ → Option SyncArr
reserve array latch level =
    if array.next_free == ulint_undefined
    then if ltb array.n_elems array.max_elems
      then take_cell array.n_elems (record array { n_elems = array.n_elems + 1 }) latch level
      else none
    else take_cell array.next_free
        (record array { next_free = (array.elems array.next_free).level }) latch level

abbrev pub holds_latch : ℕ → SyncLevel → Bool
holds_latch latch s = elim s.latch [ none ↦ false | some l ↦ l == latch ]

-- The first of `n` cells from `i` on that holds the latch.
pub find_from : ℕ → (ℕ → SyncLevel) → ℕ → ℕ → Option ℕ
find_from latch elems i zero = none
find_from latch elems i (suc n) =
    let rest = find_from latch elems (i + 1) n in
    if holds_latch latch (elems i) then some i else rest

-- The body of the loop of `sync_thread_reset_level` at the cell that holds the latch: the cell goes
-- to the front of the free list, and an array with no latch left is emptied.
unfoldable pub free_cell : SyncArr → ℕ → Option SyncArr
free_cell array i =
    if leb 1 array.in_use
    then some (
        if array.in_use == 1
        then record {
          in_use = 0;
          n_elems = 0;
          max_elems = array.max_elems;
          next_free = ulint_undefined;
          elems = update array.elems i (record { latch = none; level = array.next_free });
        }
        else record array {
          in_use = array.in_use - 1;
          next_free = i;
          elems = update array.elems i (record { latch = none; level = array.next_free });
        })
    else none
