-- ===== src/Sysbench/MutexTests.antt =====
-- A thread of the mutex test takes three locks.
use htmsql.Prelude.{◌+◌, ◌≡◌, some, arith}
use htmsql.Sysbench.Mutex.{
  Run, IsRun, mutex_get_request, mutex_execute_request, mutex_execute_request-IsRun,
}

mutex_execute_request-IsRun_example :
    (r : Run) × (mutex_execute_request 4 (λ k. k + 2) (mutex_get_request 3 10000) 3 9 ≡ some (r, 1))
    × IsRun 4 3 9 r
mutex_execute_request-IsRun_example =
    mutex_execute_request-IsRun 4 (λ k. k + 2) (omega arith) 3 10000 3 9 (omega arith) (omega arith)
