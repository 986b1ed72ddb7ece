-- ===== src/Hle/BankTests.antt =====
-- A run of the accounts, and the theorems at it.
use htmsql.Prelude.{ℕ, zero, suc, ◌*◌, ◌<◌, ◌≤◌, ◌≡◌, refl, some, true, false, arith}
use htmsql.Hle.Bank.{
  pos, Call, withdraw, deposit, account_of, new_balance, finished, after, Bank, new_bank, actual,
  sum_of, is_int, add_nat, ◌+ℤ◌, account_initial, update_begins, takes, loads, stores, unlocks,
  finishes, stops, Reachable, start, step, sub_nat,
}
use htmsql.Hle.Bank.Conservation.{Conserved, Reachable-Conserved, checked_sum}

-- One thread moves 7 from account 0 to account 1.
abbrev transfer : Call
transfer = withdraw 0 1 7

withdrawn :
    (s : Bank) × Reachable 2 1 s
    × (s.pc 0 ≡ after transfer)
    × (s.mutex 1 ≡ 0)
    × (s.stop_run ≡ false)
unfolding new_bank account_of after new_balance sub_nat
withdrawn =
    let r1 = step start (
      update_begins {i = 0} {a = 0} {to = 1} 7 (omega arith) refl refl (omega arith)
        (omega arith)) in
    let r2 = step r1 (takes {i = 0} {x = transfer} (omega arith) refl refl) in
    let r3 = step r2 (loads {i = 0} {x = transfer} (omega arith) refl) in
    let r4 = step r3 (stores {i = 0} {x = transfer} (omega arith) refl) in
    (_, step r4 (unlocks {i = 0} {x = transfer} (omega arith) refl), refl, refl, refl)

ended : (s : Bank) × Reachable 2 1 s × (s.pc 0 ≡ finished)
unfolding account_of after
ended =
    let (s, r0, here, free, go) = withdrawn in
    let r1 = step r0 (takes {i = 0} {x = deposit 1 7} (omega arith) here free) in
    let r2 = step r1 (loads {i = 0} {x = deposit 1 7} (omega arith) refl) in
    let r3 = step r2 (stores {i = 0} {x = deposit 1 7} (omega arith) refl) in
    let r4 = step r3 (unlocks {i = 0} {x = deposit 1 7} (omega arith) refl) in
    let r5 = step r4 stops in (_, step r5 (finishes {i = 0} (omega arith) refl refl), refl)

thread_ended : (i : ℕ) → i < 1 → ended.0.pc i ≡ finished
thread_ended zero lt = ended.2
thread_ended (suc i) lt = absurd (omega arith)

sums_fit : (k : ℕ) → k ≤ 2 → is_int (sum_of ended.0.balance k) ≡ true
unfolding sum_of new_bank account_of after new_balance sub_nat add_nat ◌+ℤ◌ ended withdrawn
sums_fit zero le = refl
sums_fit (suc zero) le = refl
sums_fit (suc (suc zero)) le = refl
sums_fit (suc (suc (suc k))) le = absurd (omega arith)

checked_sum_example : actual ended.0.balance 2 ≡ some (pos (2 * account_initial))
checked_sum_example = checked_sum ended.1 thread_ended sums_fit

-- The money is on its way between the two accounts.
Reachable-Conserved_example : Conserved 2 1 withdrawn.0.balance withdrawn.0.pc
Reachable-Conserved_example = Reachable-Conserved withdrawn.1
