-- ===== src/Sysbench/Oltp/Requests.antt =====
-- The generators of requests, `oltp_get_request` and the four functions below it in sb_oltp.c.
use htmsql.Prelude.{
  ℕ, ◌+◌, ◌-◌, ◌%◌, Bool, true, false, not, ◌&&◌, if◌then◌else◌, ◌==◌, ltb, leb, update, Option,
  none, some, List, [], ◌∷◌, ◌++◌, length,
}
use htmsql.Sysbench.Oltp.{
  World, word, OltpMode, mode_simple, mode_complex, mode_nontrx, mode_sp, NontrxMode, nontrx_select,
  nontrx_update_key, nontrx_update_nokey, nontrx_insert, nontrx_delete, ReconnectMode,
  reconnect_session, reconnect_query, reconnect_transaction, reconnect_random, OltpArgs, QueryType,
  lock, unlock, call, reconnect, point, update_index, update_non_index, delete, insert, range,
  range_sum, range_order, range_distinct, Query, Run, done, memfail, fault, Cmd, pure, ◌>>=◌, ◌>>◌,
  when, repeat, malloc, malloc_untested, sb_rnd, get_random_id, get_unique_random_id,
  get_think_time,
}

-- `sb_request_t`: `SB_REQ_TYPE_NULL`, or `SB_REQ_TYPE_SQL` with its queries
pub data SqlRequest : Type 0 where
  type_null : SqlRequest
  type_sql : List Query → SqlRequest

-- `SB_LIST_ADD_TAIL(&query->listitem, sql_req->queries)`
abbrev pub add_tail : QueryType → ℕ → Option ℕ → Cmd (Unit {0})
add_tail t think nrows s = done tt (record s {
  queries =
      s.queries ++ (record { type = t; num_times = 1; think_time = think; nrows = nrows }) ∷ [];
})

-- The comparisons of the constants in `reconnect_mode_t`
unfoldable pub is_query : ReconnectMode → Bool
is_query reconnect_query = true
is_query _ = false

unfoldable pub is_random : ReconnectMode → Bool
is_random reconnect_random = true
is_random _ = false

unfoldable pub is_session : ReconnectMode → Bool
is_session reconnect_session = true
is_session _ = false

unfoldable pub is_transaction : ReconnectMode → Bool
is_transaction reconnect_transaction = true
is_transaction _ = false

-- The constant of that number, for `sb_rnd() % RECONNECT_RANDOM`
unfoldable pub mode_of : ℕ → ReconnectMode
mode_of n =
    if n == 0 then reconnect_session else if n == 1 then reconnect_query else reconnect_transaction

-- `from` for a random number
unfoldable pub range_start : OltpArgs → ℕ → ℕ
range_start args r =
    let start =
      if ltb args.table_size ((r + args.range_size) % word)
      then (args.table_size + word - args.range_size) % word
      else r in
    if ltb start 1 then 1 else start

-- An empty list for the queries
abbrev pub list_init : Cmd (Unit {0})
list_init s = done tt (record s { queries = [] })

unfoldable pub finished : Cmd SqlRequest
finished s = done (type_sql s.queries) (record s { req_performed = (s.req_performed + 1) % word })

-- The label `memfail` frees the queries and their list.
unfoldable pub freed : Run SqlRequest → Run SqlRequest
freed (done r s) = done r s
freed (memfail s) =
    done type_null (record s { live = s.live - (length s.queries + 1); queries = [] })
freed fault = fault

module _ (w : World) (args : OltpArgs) where
  unfoldable pub add_reconnect_req : Cmd (Unit {0})
  add_reconnect_req = do
    malloc_untested w
    think ← get_think_time w args
    add_tail reconnect think (some 0)

  -- `args.reconnect_mode == RECONNECT_QUERY || (… RECONNECT_RANDOM && sb_rnd() % 2)`
  unfoldable pub reconnect_behind : Cmd (Unit {0})
  reconnect_behind =
      if is_query args.reconnect_mode
      then add_reconnect_req
      else when (is_random args.reconnect_mode)
          (sb_rnd w >>= λ r. when (r % 2 == 1) add_reconnect_req)

  -- The mode of this transaction, with the random mode of the thread
  unfoldable pub reconnects_from : ℕ → ReconnectMode → ℕ → Cmd ReconnectMode
  reconnects_from tid rmode r =
      let next = mode_of (r % 3) in
      (λ s. done tt (record s { reconnect_modes = update s.reconnect_modes tid next }))
      >> when (is_session rmode && not (is_session next)) add_reconnect_req
      >> pure next

  unfoldable pub choose_mode : ℕ → Cmd ReconnectMode
  choose_mode tid =
      if is_random args.reconnect_mode
      then (λ s. (sb_rnd w >>= reconnects_from tid (s.reconnect_modes tid)) s)
      else pure args.reconnect_mode

  -- One query of each kind; the query behind it reconnects where every query does.
  unfoldable pub add_marker : QueryType → Cmd (Unit {0})
  add_marker t = malloc w >> add_tail t 0 none

  unfoldable pub add_id : (ℕ → QueryType) → Option ℕ → Cmd (Unit {0})
  add_id t nrows = do
    malloc w
    think ← get_think_time w args
    i ← get_random_id w args
    add_tail (t i) think nrows

  unfoldable pub add_range : (ℕ → ℕ → QueryType) → Option ℕ → Cmd (Unit {0})
  add_range t nrows = do
    malloc w
    think ← get_think_time w args
    r ← get_random_id w args
    let start = range_start args r
    add_tail (t start ((start + args.range_size + word - 1) % word)) think nrows

  unfoldable pub add_distinct : Cmd (Unit {0})
  add_distinct = do
    malloc w
    think ← get_think_time w args
    r ← get_random_id w args
    let start = range_start args r
    add_tail (range_distinct start ((start + args.range_size) % word)) think (some 0)

  module _ (rmode : ReconnectMode) where
    abbrev pub with_reconnect : Cmd (Unit {0}) → Cmd (Unit {0})
    with_reconnect m = m >> when (is_query rmode) add_reconnect_req

    unfoldable pub add_reads : Cmd (Unit {0})
    add_reads = do
      repeat args.point_selects (with_reconnect (add_id point (some 1)))
      repeat args.simple_ranges (with_reconnect (add_range range (some args.range_size)))
      repeat args.sum_ranges (with_reconnect (add_range range_sum (some 1)))
      repeat args.order_ranges (with_reconnect (add_range range_order (some args.range_size)))
      repeat args.distinct_ranges (with_reconnect add_distinct)

    -- The update, the delete and the insert of the same id
    unfoldable pub add_with_id : ℕ → (ℕ → QueryType) → Cmd (Unit {0})
    add_with_id i t = do malloc w; think ← get_think_time w args; add_tail (t i) think none

    unfoldable pub add_same : Cmd (Unit {0})
    add_same = do
      malloc w
      think ← get_think_time w args
      i ← get_random_id w args
      add_tail (update_index i) think none
      add_with_id i delete
      add_with_id i insert

    unfoldable pub add_writes : Cmd (Unit {0})
    add_writes = do
      repeat args.index_updates (with_reconnect (add_id update_index none))
      repeat args.non_index_updates (with_reconnect (add_id update_non_index none))
      add_same

    unfoldable pub add_commit : Cmd (Unit {0})
    add_commit = add_marker unlock >> when (is_transaction rmode) add_reconnect_req

    unfoldable pub add_transaction : Cmd (Unit {0})
    add_transaction = do
      when (not args.skip_trx) (add_marker lock)
      add_reads
      when (not args.read_only) add_writes
      when (not args.skip_trx) add_commit

  -- A request whose list is allocated first, with NULL where that fails
  unfoldable pub listed : Cmd (Unit {0}) → Run (Unit {0}) → Run SqlRequest
  listed body (done _ s) = freed ((list_init >> body >> finished) s)
  listed body (memfail s) = done type_null s
  listed body fault = fault

  unfoldable pub with_list : Cmd (Unit {0}) → Cmd SqlRequest
  unfolding listed
  with_list body s = listed body (malloc w s)

  unfoldable pub get_request_complex : ℕ → Cmd SqlRequest
  get_request_complex tid = with_list (choose_mode tid >>= add_transaction)

  unfoldable pub nontrx_query : NontrxMode → Cmd (QueryType × Option ℕ)
  nontrx_query nontrx_select = get_random_id w args >>= λ i. pure (point i, some 1)
  nontrx_query nontrx_update_key = get_random_id w args >>= λ i. pure (update_index i, none)
  nontrx_query nontrx_update_nokey = get_random_id w args >>= λ i. pure (update_non_index i, none)
  nontrx_query nontrx_insert = get_random_id w args >>= λ i. pure (insert i, none)
  nontrx_query nontrx_delete = get_unique_random_id w args >>= λ i. pure (delete i, none)

  unfoldable pub nontrx_body : Cmd (Unit {0})
  nontrx_body = do
    malloc w
    think ← get_think_time w args
    q ← nontrx_query args.nontrx_mode
    add_tail q.0 think q.1
    reconnect_behind

  unfoldable pub get_request_nontrx : Cmd SqlRequest
  get_request_nontrx = with_list nontrx_body

  -- Both calls of malloc stand in front of the test; what one of them gave is not freed.
  unfoldable pub take_two : Cmd Bool
  take_two s = done (w.malloc s.asked && w.malloc (s.asked + 1)) (record s {
    asked = s.asked + 2;
    live = s.live + (if w.malloc s.asked then 1 else 0) + (if w.malloc (s.asked + 1) then 1 else 0);
  })

  unfoldable pub simple_body : Cmd SqlRequest
  simple_body = do
    list_init
    think ← get_think_time w args
    i ← get_random_id w args
    add_tail (point i) think (some 1)
    reconnect_behind
    finished

  unfoldable pub sp_body : Cmd SqlRequest
  sp_body = do
    list_init
    think ← get_think_time w args
    add_tail call think (some 0)
    reconnect_behind
    finished

  unfoldable pub get_request_simple : Cmd SqlRequest
  get_request_simple = take_two >>= λ b. if b then simple_body else pure type_null

  unfoldable pub get_request_sp : Cmd SqlRequest
  get_request_sp = take_two >>= λ b. if b then sp_body else pure type_null

  unfoldable pub get_request_in : OltpMode → ℕ → Cmd SqlRequest
  get_request_in mode_simple tid = get_request_simple
  get_request_in mode_complex tid = get_request_complex tid
  get_request_in mode_nontrx tid = get_request_nontrx
  get_request_in mode_sp tid = get_request_sp

  unfoldable pub oltp_get_request : (max_requests tid : ℕ) → Cmd SqlRequest
  oltp_get_request max_requests tid s =
      if ltb 0 max_requests && leb max_requests s.req_performed
      then done type_null s
      else get_request_in args.test_mode tid s
