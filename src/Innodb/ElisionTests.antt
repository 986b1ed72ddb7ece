-- ===== src/Innodb/ElisionTests.antt =====
-- Runs of the mutex with transactions, and its theorems at them.
use htmsql.Prelude.{ℕ, ◌≡◌, ◌≢◌, refl}
use htmsql.Innodb.Mutex.{mutex_create_func, owner}
use htmsql.Innodb.Elision.{
  syslock_rtm, trx_lock_func_rtm, System, trying, begun, speculating, at_layer, init, Reach, start,
  later, calls, starts, goes_on,
}
use htmsql.Innodb.Elision.Exclusion.{elided_exclusion}
use htmsql.Innodb.Elision.Race.{unread_race}

-- Threads 0 and 1 are in their transactions.
abbrev in_transaction : ℕ → System → System
in_transaction t s = at_layer (at_layer (at_layer s t (trying 0)) t (begun 0)) t (speculating 0)

two_inside : Reach syslock_rtm 30 (in_transaction 1 (in_transaction 0 init))
unfolding mutex_create_func
two_inside =
    later
      (later
        (later (later (later (later start (calls refl)) (starts refl)) (goes_on refl λ _. refl))
          (calls refl))
        (starts refl))
      (goes_on refl λ _. refl)

elided_exclusion_example :
    let s = in_transaction 1 (in_transaction 0 init) in
    ((i j k : ℕ) → s.layer i ≡ speculating k → s.pc j ≢ owner)
    × ((i j : ℕ) → s.pc i ≡ owner → s.pc j ≡ owner → i ≡ j)
    × ((i : ℕ) → s.pc i ≡ owner → s.mutex.lock_word ≢ 0)
elided_exclusion_example = elided_exclusion refl two_inside

unread_race_example :
    (s : System) × Reach trx_lock_func_rtm 30 s
    × ((k : ℕ) × (s.layer 0 ≡ speculating k))
    × (s.pc 1 ≡ owner)
unread_race_example = unread_race trx_lock_func_rtm 30 refl
