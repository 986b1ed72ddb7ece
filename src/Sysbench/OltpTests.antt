-- ===== src/Sysbench/OltpTests.antt =====
-- Runs of the oltp test on a small table, and its theorems at them.
use htmsql.Prelude.{
  ◌+◌, ◌*◌, ◌<◌, ◌≡◌, refl, true, false, ◌&&◌, ltb, leb, ◌⊎◌, if◌then◌else◌, some, List, [], All,
  arith,
}
use htmsql.Sysbench.Oltp.{
  World, OltpArgs, mode_complex, nontrx_select, dist_special, reconnect_session, Query, Oltp, Run,
  done, get_random_id, repeat, malloc, get_think_time,
}
use htmsql.Sysbench.Oltp.Ends.{Ends}
use htmsql.Sysbench.Oltp.Ids.{IsUsable, IsRow, Draws, get_random_id-Draws}
use htmsql.Sysbench.Oltp.Requests.{
  SqlRequest, type_null, type_sql, get_request_complex, oltp_get_request, choose_mode, is_random,
  is_query, is_transaction, with_list, add_transaction, add_marker, add_reads, add_id, add_range,
  range_start, add_writes, add_same, add_with_id, add_commit, finished, freed,
}
use htmsql.Sysbench.Oltp.Complex.{IsTransaction, get_request_complex-IsTransaction}
use htmsql.Sysbench.Oltp.Answer.{IsAnswer, oltp_get_request-IsAnswer}
use htmsql.Sysbench.Oltp.Execute.{
  Database, result_set, null_deadlock, error_none, Session, oltp_execute_request, get_sql_statement,
  is_reconnect,
}
use htmsql.Sysbench.Oltp.Rounds.{IsCalm, IsKnown}
use htmsql.Sysbench.Oltp.Counts.{IsPerformed, oltp_execute_request-IsPerformed}
use htmsql.Sysbench.Oltp.Whole.{read_ops_of, write_ops_of, complex_performed}

-- Ten rows, one point select, one range of three rows, and no updates but the last one
abbrev args : OltpArgs
args = record {
  test_mode = mode_complex;
  reconnect_mode = reconnect_session;
  read_only = false;
  skip_trx = false;
  range_size = 3;
  point_selects = 1;
  simple_ranges = 1;
  sum_ranges = 0;
  order_ranges = 0;
  distinct_ranges = 0;
  index_updates = 0;
  non_index_updates = 0;
  nontrx_mode = nontrx_select;
  user_delay_min = 0;
  user_delay_max = 0;
  table_size = 10;
  dist_type = dist_special;
  dist_iter = 2;
  dist_pct = 1;
  dist_res = 75;
}

args-IsUsable : IsUsable args
args-IsUsable = record {
  rows = omega arith;
  percents = omega arith;
  iterates = omega arith;
  sums = omega arith;
  res = omega arith;
  pct = omega arith;
  ranges = omega arith;
  shorter = omega arith;
}

abbrev world : World
world = record { sb_rnd = λ n. n * 7; malloc = λ n. true }

abbrev start : Oltp
start = record {
  req_performed = 0;
  reconnect_modes = λ t. reconnect_session;
  rnd_seed = 2147483647;
  queries = [];
  draws = 0;
  asked = 0;
  live = 4;
}

get_random_id-Draws_example : Draws (IsRow args) start (get_random_id world args start)
get_random_id-Draws_example = get_random_id-Draws world args args-IsUsable start

get_request_complex-IsTransaction_example :
    Ends world
      (λ r s'. IsTransaction world args start r s')
      (λ _. ⊥)
      (get_request_complex world args 0 start)
get_request_complex-IsTransaction_example =
    get_request_complex-IsTransaction world args 0 start args-IsUsable

oltp_get_request-IsAnswer_example :
    (((ltb 0 5 && leb 5 0) ≡ true) × (oltp_get_request world args 5 0 start ≡ done type_null start))
    ⊎ (((ltb 0 5 && leb 5 0) ≡ false)
        × Ends world
            (IsAnswer world args start mode_complex)
            (λ _. ⊥)
            (oltp_get_request world args 5 0 start))
oltp_get_request-IsAnswer_example = oltp_get_request-IsAnswer world args 5 0 start args-IsUsable

-- The first two rounds meet deadlocks.
abbrev database : Database
database = record {
  reconnects = λ n. true;
  binds = λ n. true;
  db_execute = λ n. if ltb n 2 then null_deadlock else result_set;
  db_store_results = λ n. error_none;
  db_num_rows = λ n. 1;
}

database-IsCalm : IsCalm database 2
database-IsCalm = record {
  reconnects = λ n. refl;
  binds = λ n. refl;
  executes = λ n. ground arith;
  stores = λ n e. cc;
  executed_then = λ n h. ground arith;
  stored_then = λ n h. refl;
}

abbrev queries_of : Run SqlRequest → List Query
queries_of (done (type_sql qs) s) = qs
queries_of _ = []

abbrev state_of : Run SqlRequest → Oltp
state_of (done r s) = s
state_of _ = start

abbrev session : Session
session = record {
  read_ops = 10;
  write_ops = 20;
  other_ops = 30;
  transactions = 4;
  deadlocks = 1;
  error = false;
  warnings = 0;
  rounds = 0;
  live = 12;
}

abbrev request : Run SqlRequest
request = get_request_complex world args 0 start

request_made :
    (request ≡ done (type_sql (queries_of request)) (state_of request))
    × (12 ≡ (state_of request).live)
    × All (IsKnown mode_complex) (queries_of request)
unfolding get_request_complex choose_mode repeat get_random_id malloc get_think_time is_random
    is_query is_transaction with_list add_transaction add_marker add_reads add_id add_range
    range_start add_writes add_same add_with_id add_commit finished freed get_sql_statement
    is_reconnect
request_made = (refl, refl, (refl, (refl, (refl, (refl, (refl, (refl, (refl, tt))))))))

oltp_execute_request-IsPerformed_example :
    (s' : Session) × (oltp_execute_request database mode_complex true 3 (queries_of request) session
      ≡ some (0, s'))
    × IsPerformed (queries_of request) session s'
oltp_execute_request-IsPerformed_example =
    oltp_execute_request-IsPerformed mode_complex true 3 (queries_of request) session
      database-IsCalm request_made.2 (omega arith) (omega arith)

complex_performed_example :
    (s' : Session) × (oltp_execute_request database mode_complex true 3 (queries_of request) session
      ≡ some (0, s'))
    × (s'.transactions ≡ session.transactions + 1)
    × (s'.live ≡ start.live)
    × ((session.deadlocks < s'.deadlocks)
        ⊎ ((s'.read_ops ≡ session.read_ops + read_ops_of args)
            × (s'.write_ops ≡ session.write_ops + write_ops_of args)))
complex_performed_example =
    complex_performed world args 0 start (state_of request) (queries_of request) true 3 session
      args-IsUsable request_made.0 request_made.1 database-IsCalm (omega arith) (omega arith)
