-- ===== src/Sysbench/Oltp/Execute.antt =====
-- The execution of a request, `oltp_execute_request` of sb_oltp.c, with `get_sql_statement`. What the
-- database answers is a parameter, by the number of the round of the loop over `num_times`. The sleeps
-- and the timers of the debug mode are left out, and the counters are not bounded.
use htmsql.Prelude.{
  ℕ, zero, suc, ◌+◌, ◌-◌, Bool, true, false, not, ◌&&◌, if◌then◌else◌, ◌==◌, ltb, Option, none,
  some, List, [], ◌∷◌, length,
}
use htmsql.Sysbench.Oltp.{
  OltpMode, mode_simple, mode_complex, mode_nontrx, mode_sp, QueryType, call, reconnect, point,
  update_index, update_non_index, delete, insert, range, range_sum, range_order, range_distinct,
  Query,
}

-- What `db_execute` returns: a result set, or NULL with an error of `db_errno`
pub data Executed : Type 0 where
  result_set null_deadlock null_error : Executed

-- What `db_store_results` returns
pub data Stored : Type 0 where
  error_none error_deadlock error_failed : Stored

-- `oltp_reconnect` returns 0, and `db_bind_param` returns 0.
pub record Database : Type 0 where
  pub reconnects : ℕ → Bool
  pub binds : ℕ → Bool
  pub db_execute : ℕ → Executed
  pub db_store_results : ℕ → Stored
  pub db_num_rows : ℕ → ℕ

-- The counters that all threads share, `sb_globals.error`, and the numbers of warnings, of rounds and
-- of blocks that are not freed
pub record Session : Type 0 where
  pub read_ops : ℕ
  pub write_ops : ℕ
  pub other_ops : ℕ
  pub transactions : ℕ
  pub deadlocks : ℕ
  pub error : Bool
  pub warnings : ℕ
  pub rounds : ℕ
  pub live : ℕ

-- The counters of one call
pub record Local : Type 0 where
  pub local_read_ops : ℕ
  pub local_write_ops : ℕ
  pub local_other_ops : ℕ
  pub local_deadlocks : ℕ

-- `get_sql_statement_trx` and `get_sql_statement_nontrx`: whether there is a statement, where `bound`
-- says that `db_bind_param` succeeds.
unfoldable pub statement_trx : QueryType → (bound : Bool) → Bool
statement_trx call bound = false
statement_trx reconnect bound = false
statement_trx (update_non_index i) bound = bound
statement_trx _ bound = true

unfoldable pub statement_nontrx : QueryType → (bound : Bool) → Bool
statement_nontrx (point i) bound = true
statement_nontrx (update_index i) bound = true
statement_nontrx (update_non_index i) bound = bound
statement_nontrx (delete i) bound = true
statement_nontrx (insert i) bound = bound
statement_nontrx _ bound = false

unfoldable pub get_sql_statement : OltpMode → QueryType → Bool → Bool
unfolding statement_trx statement_nontrx
get_sql_statement mode_simple t bound = statement_trx t bound
get_sql_statement mode_complex t bound = statement_trx t bound
get_sql_statement mode_nontrx t bound = statement_nontrx t bound
get_sql_statement mode_sp t bound = true

-- From `SB_SQL_QUERY_POINT` to `SB_SQL_QUERY_RANGE_DISTINCT`, which `SB_SQL_QUERY_CALL` lies between
unfoldable pub is_select : QueryType → Bool
is_select (point i) = true
is_select call = true
is_select (range a b) = true
is_select (range_sum a b) = true
is_select (range_order a b) = true
is_select (range_distinct a b) = true
is_select _ = false

unfoldable pub is_reconnect : QueryType → Bool
is_reconnect reconnect = true
is_reconnect _ = false

-- A round, a query or the whole list goes on, has met a deadlock, or returns 1.
pub data Progress : Type 0 where
  passed deadlocked : Local → Session → Progress
  failed : Session → Progress

abbrev pub next_round : Session → Session
next_round s = record s { rounds = s.rounds + 1 }

unfoldable pub with_error : Session → Progress
with_error s = failed (record s { error = true; rounds = s.rounds + 1 })

unfoldable pub at_deadlock : Local → Session → Progress
at_deadlock l s = deadlocked (record l { local_deadlocks = l.local_deadlocks + 1 }) (next_round s)

abbrev pub onward : Progress → (Local → Session → Progress) → Progress
onward (passed l s) k = k l s
onward (deadlocked l s) k = deadlocked l s
onward (failed s) k = failed s

-- The statistics of the operations behind the loop
unfoldable pub count_ops : QueryType → ℕ → Local → Local
count_ops (point i) n l = record l { local_read_ops = l.local_read_ops + n }
count_ops (range a b) n l = record l { local_read_ops = l.local_read_ops + n }
count_ops (range_sum a b) n l = record l { local_read_ops = l.local_read_ops + n }
count_ops (range_order a b) n l = record l { local_read_ops = l.local_read_ops + n }
count_ops (range_distinct a b) n l = record l { local_read_ops = l.local_read_ops + n }
count_ops (update_index i) n l = record l { local_write_ops = l.local_write_ops + n }
count_ops (update_non_index i) n l = record l { local_write_ops = l.local_write_ops + n }
count_ops (delete i) n l = record l { local_write_ops = l.local_write_ops + n }
count_ops (insert i) n l = record l { local_write_ops = l.local_write_ops + n }
count_ops _ n l = record l { local_other_ops = l.local_other_ops + n }

-- The loop over the queries goes on behind the statistics, or ends there at a deadlock.
unfoldable pub counted : Query → Progress → (Local → Session → Progress) → Progress
unfolding count_ops
counted q (passed l s) k = k (count_ops q.type q.num_times l) s
counted q (deadlocked l s) k = deadlocked (count_ops q.type q.num_times l) s
counted q (failed s) k = failed s

abbrev pub local_start : Local
local_start = record {
  local_read_ops = 0;
  local_write_ops = 0;
  local_other_ops = 0;
  local_deadlocks = 0;
}

-- The shared counters, and the queries and their list freed
unfoldable pub committed : List Query → Local → Session → Session
committed qs l s = record s {
  read_ops = s.read_ops + l.local_read_ops;
  write_ops = s.write_ops + l.local_write_ops;
  other_ops = s.other_ops + l.local_other_ops;
  transactions = s.transactions + 1;
  deadlocks = s.deadlocks + l.local_deadlocks;
  live = s.live - (length qs + 1);
}

unfoldable pub returned : List Query → Progress → ℕ × Session
returned qs (passed l s) = (0, committed qs l s)
returned qs (deadlocked l s) = (1, s)
returned qs (failed s) = (1, s)

-- The loop that starts again at a deadlock
unfoldable pub again : Progress → (Local → Session → Option Progress) → Option Progress
again (passed l s) k = some (passed l s)
again (deadlocked l s) k = k l s
again (failed s) k = some (failed s)

unfoldable pub answered : List Query → Option Progress → Option (ℕ × Session)
answered qs none = none
answered qs (some p) = some (returned qs p)

module _ (db : Database) (mode : OltpMode) (validate : Bool) where
  -- The check of the number of rows, which only warns
  unfoldable pub validated : Option ℕ → Session → Session
  validated none s = s
  validated (some n) s =
      if validate && ltb 0 n && not (db.db_num_rows s.rounds == n)
      then record s { warnings = s.warnings + 1 }
      else s

  unfoldable pub fetched : Query → Local → Session → Stored → Progress
  unfolding at_deadlock with_error
  fetched q l s error_none = passed l (next_round (validated q.nrows s))
  fetched q l s error_deadlock = at_deadlock l s
  fetched q l s error_failed = with_error s

  unfoldable pub executed : Query → Local → Session → Executed → Progress
  unfolding at_deadlock with_error
  executed q l s result_set =
      if is_select q.type
      then fetched q l s (db.db_store_results s.rounds)
      else passed l (next_round s)
  executed q l s null_deadlock = at_deadlock l s
  executed q l s null_error = with_error s

  -- The body of the loop over `num_times`
  unfoldable pub query_once : Query → Local → Session → Progress
  unfolding executed with_error
  query_once q l s =
      if is_reconnect q.type
      then if db.reconnects s.rounds then passed l (next_round s) else failed (next_round s)
      else if get_sql_statement mode q.type (db.binds s.rounds)
      then executed q l s (db.db_execute s.rounds)
      else with_error s

  unfoldable pub query_times : ℕ → Query → Local → Session → Progress
  query_times zero q l s = passed l s
  query_times (suc n) q l s = onward (query_once q l s) (query_times n q)

  unfoldable pub queries_loop : List Query → Local → Session → Progress
  queries_loop [] l s = passed l s
  queries_loop (q ∷ qs) l s = counted q (query_times q.num_times q l s) (queries_loop qs)

  -- `none` where the fuel does not suffice
  unfoldable pub retry_loop : ℕ → List Query → Local → Session → Option Progress
  unfolding again
  retry_loop zero qs l s = none
  retry_loop (suc fuel) qs l s = again (queries_loop qs l s) (retry_loop fuel qs)

  unfoldable pub oltp_execute_request : ℕ → List Query → Session → Option (ℕ × Session)
  unfolding answered returned committed
  oltp_execute_request fuel qs s = answered qs (retry_loop fuel qs local_start s)
