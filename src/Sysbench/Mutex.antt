-- ===== src/Sysbench/Mutex.antt =====
-- The mutex test of mysql/bench/sysbench-0.4.12/sysbench/tests/mutex/sb_mutex.c: what one thread does
-- for its request. The calls of rand() are numbered; the empty loops inside of a round change nothing
-- that is read, so they are not modelled. None is a division by zero, or fuel that runs out.
use htmsql.Prelude.{
  ℕ, zero, suc, ◌+◌, ◌-◌, ◌%◌, ◌^◌, ◌<◌, ◌≤◌, ◌≡◌, refl, subst, true, false, List, [], ◌∷◌, length,
  if◌then◌else◌, ltb, ◌==◌, arith, Option, none, some, All, Bool-cases, inl, inr,
}
use native.Mathlib.Nat.{mod-lt}

-- `sb_mutex_request_t`
pub record MutexRequest : Type 0 where
  pub nlocks : ℕ
  pub nloops : ℕ

abbrev pub mutex_get_request : (mutex_locks mutex_loops : ℕ) → MutexRequest
mutex_get_request mutex_locks mutex_loops = record { nlocks = mutex_locks; nloops = mutex_loops }

-- `global_var`, and the locks that are taken and released around it, in order
pub record Run : Type 0 where
  pub global_var : ℕ
  pub locked : List ℕ

abbrev locked_first : ℕ → Option Run → Option Run
locked_first l none = none
locked_first l (some r) = some (record r { locked = l ∷ r.locked })

-- The loop from call `k` of rand() on
unfoldable pub lock_loop :
    (mutex_num : ℕ) → (rand : ℕ → ℕ) → (fuel nlocks k global_var : ℕ) → Option Run
lock_loop mutex_num rand zero nlocks k global_var = none
lock_loop mutex_num rand (suc fuel) nlocks k global_var =
    let left = (nlocks + (2 ^ 32 - 1)) % 2 ^ 32 in
    let counted = (global_var + 1) % 2 ^ 32 in
    let rest = lock_loop mutex_num rand fuel left (k + 1) counted in
    if mutex_num == 0
    then none
    else locked_first (rand k % mutex_num)
        (if ltb 0 left then rest else some (record { global_var = counted; locked = [] }))

-- The request that `mutex_get_request` makes, with the value that `mutex_execute_request` returns
unfoldable pub mutex_execute_request :
    (mutex_num : ℕ) → (rand : ℕ → ℕ) → MutexRequest → (fuel global_var : ℕ) → Option (Run × ℕ)
mutex_execute_request mutex_num rand request fuel global_var =
    elim (lock_loop mutex_num rand fuel request.nlocks 0 global_var) [
      | none ↦ none
      | some r ↦ some (r, 1)
    ]

-- The rounds of the loop, which counts down in front of its test
abbrev pub rounds : ℕ → ℕ
rounds nlocks = if nlocks == 0 then 2 ^ 32 else nlocks

pub record IsRun (mutex_num n global_var : ℕ) (r : Run) : Type 0 where
  pub counted : r.global_var ≡ (global_var + n) % 2 ^ 32
  pub many : length r.locked ≡ n
  pub inside : All (λ l. l < mutex_num) r.locked

module _ (mutex_num : ℕ) (rand : ℕ → ℕ) (some_mutex : 1 ≤ mutex_num) where
  lock_loop-IsRun :
      (fuel n nlocks k global_var : ℕ)
      → (nlocks + (2 ^ 32 - 1)) % 2 ^ 32 ≡ n
      → n < fuel
      → (r : Run) × (lock_loop mutex_num rand fuel nlocks k global_var ≡ some r)
        × IsRun mutex_num (n + 1) global_var r
  unfolding lock_loop
  lock_loop-IsRun zero n nlocks k global_var e lt = absurd (omega arith)
  lock_loop-IsRun (suc fuel) zero nlocks k global_var e lt =
      let nonzero : (mutex_num == 0) ≡ false = ground arith in
      (
        record { global_var = (global_var + 1) % 2 ^ 32; locked = rand k % mutex_num ∷ [] },
        rw (nonzero, e) refl,
        record { counted = refl; many = refl; inside = (mod-lt (rand k) some_mutex, tt) },
      )
  lock_loop-IsRun (suc fuel) (suc n) nlocks k global_var e lt =
      let nonzero : (mutex_num == 0) ≡ false = ground arith in
      let left = (nlocks + (2 ^ 32 - 1)) % 2 ^ 32 in
      let more : ltb 0 left ≡ true = ground arith in
      let (r, run, is) =
        lock_loop-IsRun fuel n left (k + 1) ((global_var + 1) % 2 ^ 32) (omega (arith, e))
          (omega arith) in
      (
        record r { locked = rand k % mutex_num ∷ r.locked },
        rw (nonzero, more, run) refl,
        record {
          counted = omega (arith, is.counted);
          many = omega (arith, is.many);
          inside = (mod-lt (rand k) some_mutex, is.inside);
        },
      )

  executed :
      (request : MutexRequest) (fuel global_var : ℕ) (r : Run)
      → lock_loop mutex_num rand fuel request.nlocks 0 global_var ≡ some r
      → mutex_execute_request mutex_num rand request fuel global_var ≡ some (r, 1)
  unfolding mutex_execute_request
  executed request fuel global_var r run = rw (mutex_execute_request, run) refl

  -- With at least one mutex and a number of locks that fits its width, a thread that executes its
  -- request ends behind as many rounds as there are locks to take, or 2 ^ 32 where there are none:
  -- each round takes and releases a mutex of the array and counts global_var up, while no other thread
  -- changes it; and the value 1 ends the thread.
  pub mutex_execute_request-IsRun :
      (mutex_locks mutex_loops fuel global_var : ℕ)
      → mutex_locks < 2 ^ 32
      → rounds mutex_locks ≤ fuel
      → (r : Run) × (mutex_execute_request mutex_num rand
            (mutex_get_request mutex_locks mutex_loops)
            fuel
            global_var
          ≡ some (r, 1))
        × IsRun mutex_num (rounds mutex_locks) global_var r
  mutex_execute_request-IsRun mutex_locks mutex_loops fuel global_var fits enough =
      elim (Bool-cases (mutex_locks == 0)) [
        | inl e ↦
            let (r, run, is) =
              lock_loop-IsRun fuel (2 ^ 32 - 1) mutex_locks 0 global_var (ground arith)
                (ground arith) in
            let all : 2 ^ 32 - 1 + 1 ≡ rounds mutex_locks = ground arith in
            (
              r,
              executed (mutex_get_request mutex_locks mutex_loops) fuel global_var r run,
              subst (λ m. IsRun mutex_num m global_var r) all is,
            )
        | inr e ↦
            let (r, run, is) =
              lock_loop-IsRun fuel (mutex_locks - 1) mutex_locks 0 global_var (ground arith)
                (ground arith) in
            let all : mutex_locks - 1 + 1 ≡ rounds mutex_locks = ground arith in
            (
              r,
              executed (mutex_get_request mutex_locks mutex_loops) fuel global_var r run,
              subst (λ m. IsRun mutex_num m global_var r) all is,
            )
      ]
