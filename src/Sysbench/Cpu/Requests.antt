-- ===== src/Sysbench/Cpu/Requests.antt =====
-- `cpu_get_request` of sb_cpu.c, called by several threads: the number of requests is tested in front of
-- the lock under which it is counted up. The mutex of POSIX is held by one thread at a time; a load
-- and a store of the number are one step each.
pub mod Counted
use htmsql.Prelude.{
  ℕ, zero, suc, ◌+◌, ◌-◌, ◌%◌, ◌^◌, ◌<◌, ◌≤◌, ◌≡◌, ◌≢◌, refl, ap, Option, none, some, update, arith,
  inl, inr, Bool, Bool-cases, ◌==◌, if◌then◌else◌, true, false,
}

-- Where a thread is: between its calls, behind the test, in the lock in front of the load, with the
-- loaded number, behind the store, or with SB_REQ_TYPE_NULL.
pub data Pc : Type 0 where
  outside passed locked : Pc
  loaded : ℕ → Pc
  stored ended : Pc

-- `handed` counts the requests of type SB_REQ_TYPE_CPU that are returned.
pub record System : Type 0 where
  pub req_performed : ℕ
  pub request_mutex : Option ℕ
  pub pc : ℕ → Pc
  pub handed : ℕ

pub data Step (threads max_requests : ℕ) (s : System) : System → Type 0 where
  tests_more :
      {t : ℕ}
      → t < threads
      → s.pc t ≡ outside
      → s.req_performed < max_requests
      → Step threads max_requests s (record s { pc = update s.pc t passed })
  tests_enough :
      {t : ℕ}
      → t < threads
      → s.pc t ≡ outside
      → max_requests ≤ s.req_performed
      → Step threads max_requests s (record s { pc = update s.pc t ended })
  locks :
      {t : ℕ}
      → t < threads
      → s.pc t ≡ passed
      → s.request_mutex ≡ none
      → Step threads max_requests s (record s { request_mutex = some t; pc = update s.pc t locked })
  loads :
      {t : ℕ}
      → t < threads
      → s.pc t ≡ locked
      → Step threads max_requests s (record s { pc = update s.pc t (loaded s.req_performed) })
  stores :
      {t v : ℕ}
      → t < threads
      → s.pc t ≡ loaded v
      → Step threads max_requests s
          (record s { req_performed = (v + 1) % 2 ^ 32; pc = update s.pc t stored })
  unlocks :
      {t : ℕ}
      → t < threads
      → s.pc t ≡ stored
      → Step threads max_requests s
          (record s { request_mutex = none; pc = update s.pc t outside; handed = s.handed + 1 })

abbrev pub init : System
init = record { req_performed = 0; request_mutex = none; pc = λ t. outside; handed = 0 }

pub data Reach (threads max_requests : ℕ) : System → Type 0 where
  start : Reach threads max_requests init
  later :
      {s u : System}
      → Reach threads max_requests s
      → Step threads max_requests s u
      → Reach threads max_requests u
