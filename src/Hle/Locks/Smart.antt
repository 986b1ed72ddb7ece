-- ===== src/Hle/Locks/Smart.antt =====
-- `rtm_lock_smart` of hle/lock_functions/rtm_lock.cpp tests the pointer to the lock.
use htmsql.Prelude.{
  ℕ, zero, suc, ◌+◌, ◌%◌, ◌<◌, ◌≤◌, ◌≡◌, ◌≢◌, refl, ◌&&◌, ltb, leb, inl, inr, Bool-cases, some,
  arith,
}
use htmsql.Hle.Locks.{
  Begun, started, status, by_exchange, max_retries, explicit_abort, failed_with, smart_loop, tried,
  rtm_lock_smart_from,
}

-- The code of an attempt; none of them goes on.
code_of : Begun → ℕ
code_of started = explicit_abort
code_of (status code) = code

always_fails : (mutex : ℕ) (b : Begun) → mutex ≢ 0 → failed_with mutex b ≡ some (code_of b)
unfolding failed_with code_of
always_fails mutex started h = ground arith
always_fails mutex (status code) h = refl

smart_loop-by_exchange :
    (mutex : ℕ) (begins : ℕ → Begun) (fuel failures n : ℕ)
    → mutex ≢ 0
    → failures ≤ max_retries
    → max_retries < failures + fuel
    → (k : ℕ) × (smart_loop mutex begins fuel failures n ≡ some (by_exchange k))
      × (k + failures ≤ max_retries + n)
unfolding smart_loop tried
smart_loop-by_exchange mutex begins zero failures n nonnull few enough = absurd (omega arith)
smart_loop-by_exchange mutex begins (suc fuel) failures n nonnull few enough =
    let fails = always_fails mutex (begins n) nonnull in
    let test = ltb 0 (code_of (begins n) % 8) && leb (failures + 1) max_retries in
    elim (Bool-cases test) [
      | inl more ↦
          let (k, e, le) =
            smart_loop-by_exchange mutex begins fuel (failures + 1) (n + 1) nonnull (ground arith)
              (omega arith) in
          (k, rw (fails, more) e, omega (arith, le))
      | inr last ↦ (n, rw (fails, last) refl, omega arith)
    ]

-- Called with a lock, so with a pointer that is not NULL, rtm_lock_smart never returns in a transaction,
-- whatever the processor answers to `_xbegin`: behind at most `max_retries` more attempts it takes the
-- lock by atomic_exch_lock_spec.
pub rtm_lock_smart-by_exchange :
    (mutex : ℕ) (begins : ℕ → Begun) (fuel : ℕ)
    → mutex ≢ 0
    → max_retries < fuel
    → (k : ℕ) × (rtm_lock_smart_from mutex begins fuel ≡ some (by_exchange k)) × (k ≤ max_retries)
unfolding rtm_lock_smart_from
rtm_lock_smart-by_exchange mutex begins fuel nonnull enough =
    let (k, e, le) =
      smart_loop-by_exchange mutex begins fuel 0 0 nonnull (omega arith) (omega arith) in
    (k, e, omega (arith, le))
