-- ===== src/Hle/LockTests.antt =====
-- Runs of the locks, and their theorems at them.
use htmsql.Prelude.{ℕ, ◌≤◌, ◌≡◌, ◌≢◌, refl, some, arith}
use htmsql.Hle.Locks.{
  atomic_exch_busy, hle_exch_spec, spec, lock_of, first_pc, refused_pc, started, by_exchange,
  max_retries, rtm_lock_smart_from, inside, waiting, System, Reach, start, later, calls, takes,
  is_refused,
}
use htmsql.Hle.Locks.Exclusion.{lock_exclusion}
use htmsql.Hle.Locks.Smart.{rtm_lock_smart-by_exchange}

-- Thread 0 has the lock and thread 1, with a lock of another type, waits for it.
one_waits : (s : System) × Reach s × (s.pc 0 ≡ inside) × (s.pc 1 ≡ waiting spec)
unfolding lock_of first_pc refused_pc
one_waits = (
  _,
  later
      (later
        (later (later start (calls {t = 0} atomic_exch_busy refl refl)) (takes {t = 0} refl refl))
        (calls {t = 1} hle_exch_spec refl refl))
      (is_refused {t = 1} refl (λ (e : ◌≡◌ {A = ℕ} 1 0). absurd (omega (arith, e)))),
  refl,
  refl,
)

lock_exclusion_example :
    ((i j : ℕ) → one_waits.0.pc i ≡ inside → one_waits.0.pc j ≡ inside → i ≡ j)
    × ((i : ℕ) → one_waits.0.pc i ≡ inside → one_waits.0.word ≡ 1)
    × (one_waits.0.word ≢ 0 → (one_waits.0.word ≡ 1) × ((i : ℕ) × (one_waits.0.pc i ≡ inside)))
lock_exclusion_example = lock_exclusion one_waits.1

rtm_lock_smart-by_exchange_example :
    (k : ℕ) × (rtm_lock_smart_from 64 (λ n. started) 10000001 ≡ some (by_exchange k))
    × (k ≤ max_retries)
rtm_lock_smart-by_exchange_example =
    rtm_lock_smart-by_exchange 64 (λ n. started) 10000001 (λ e. absurd (omega (arith, e)))
      (omega arith)
