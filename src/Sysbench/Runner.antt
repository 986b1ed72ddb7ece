-- ===== src/Sysbench/Runner.antt =====
-- `runner_thread` of mysql/bench/sysbench-0.4.12/sysbench/sysbench.c: the loop in which a thread asks
-- the test for requests and executes them.
use htmsql.Prelude.{ℕ, zero, suc, Bool, true, false, if◌then◌else◌, Option, none, some}

-- How a thread leaves the loop.
pub data Ending : Type 0 where
  all_done failed time_limit other_error : Ending

-- The operations of a test on its state; `get_request` returns `none` for SB_REQ_TYPE_NULL, and
-- `execute_request` whether it failed. The elapsed time and the flag `sb_globals.error` are read off
-- the state.
pub record SbTest {ℓ ℓ'} (S : Type ℓ) (R : Type ℓ') : Type (ℓ ⊔ ℓ') where
  pub get_request : S → S × Option R
  pub execute_request : S → R → S × Bool
  pub is_late : S → Bool
  pub is_error : S → Bool

module _ {ℓ ℓ'} {S : Type ℓ} {R : Type ℓ'} (t : SbTest S R) where
  -- The end of the loop's body and its condition, behind a request that was executed.
  abbrev pub executed : (S → Option (S × Ending)) → S × Bool → Option (S × Ending)
  executed again (s, true) = some (s, failed)
  executed again (s, false) =
      if t.is_late s
      then some (s, time_limit)
      else if t.is_error s
      then some (s, other_error)
      else again s

  abbrev pub runner_round : (S → Option (S × Ending)) → S × Option R → Option (S × Ending)
  runner_round again (s, none) = if t.is_late s then some (s, time_limit) else some (s, all_done)
  runner_round again (s, some r) = executed again (t.execute_request s r)

  -- The loop, with fuel for its rounds.
  unfoldable pub runner_thread : ℕ → S → Option (S × Ending)
  runner_thread zero s = none
  runner_thread (suc n) s = runner_round (runner_thread n) (t.get_request s)
