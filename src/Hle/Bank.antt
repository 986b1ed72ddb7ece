-- ===== src/Hle/Bank.antt =====
-- The accounts of hle/bank: entities/ThreadsafeAccount.cpp, the threads of run_object in time_cmp.cpp
-- and its checkResult, with the lock of hle/lock_functions/atomic_exch_lock-spec.cpp in each account.
-- A balance is an integer, since every amount is one and a double holds these exactly. A step is one
-- access of a thread to memory that others may write; getBalance, which writes nothing, is taken to write
-- the balance that it read. An update moves any amount that is not negative, since savedrand, the
-- default of the generators, does not look at its limit.
pub mod Totals
pub mod Invariant
pub mod Conservation
use htmsql.Prelude.{
  ℕ, zero, suc, ◌+◌, ◌-◌, ◌*◌, ◌^◌, ◌<◌, ◌≤◌, ◌≡◌, ◌≢◌, Option, none, some, Bool, true, false, ◌&&◌,
  if◌then◌else◌, ◌==◌, ltb, leb, update,
}

pub data ℤ : Type 0 where
  pos negsuc : ℕ → ℤ

-- `z + n` and `z - n`
unfoldable pub add_nat : ℤ → ℕ → ℤ
add_nat (pos m) n = pos (m + n)
add_nat (negsuc m) n = if ltb m n then pos (n - suc m) else negsuc (m - n)

unfoldable pub sub_nat : ℤ → ℕ → ℤ
sub_nat (pos m) n = if leb n m then pos (m - n) else negsuc (n - suc m)
sub_nat (negsuc m) n = negsuc (m + n)

infixl 20 ◌+ℤ◌
unfoldable pub ◌+ℤ◌ : ℤ → ℤ → ℤ
a +ℤ pos n = add_nat a n
a +ℤ negsuc n = sub_nat a (suc n)

-- A call on an account: withdraw with the deposit that follows it, deposit, or getBalance.
pub data Call : Type 0 where
  withdraw : (from to money : ℕ) → Call
  deposit : (to money : ℕ) → Call
  get_balance : ℕ → Call

unfoldable pub account_of : Call → ℕ
account_of (withdraw a to m) = a
account_of (deposit a m) = a
account_of (get_balance a) = a

-- What the call writes, from what it read.
unfoldable pub new_balance : Call → ℤ → ℤ
new_balance (withdraw a to m) v = sub_nat v m
new_balance (deposit a m) v = add_nat v m
new_balance (get_balance a) v = v

-- Where a thread is: at the head of its loop, in front of the exchange of the lock, in the loop that
-- waits for the lock, behind it, with the balance read, with it written, or at its end.
pub data Pc : Type 0 where
  idle finished : Pc
  locking waiting entered stored : Call → Pc
  loaded : Call → ℤ → Pc

-- Behind the unlock.
unfoldable pub after : Call → Pc
after (withdraw a to m) = locking (deposit to m)
after (deposit a m) = idle
after (get_balance a) = idle

pub record Bank : Type 0 where
  pub balance : ℕ → ℤ
  pub mutex : ℕ → ℕ
  pub stop_run : Bool
  pub pc : ℕ → Pc

-- `ACCOUNT_INITIAL`
abbrev pub account_initial : ℕ
account_initial = 1000

unfoldable pub new_bank : Bank
new_bank = record {
  balance = λ a. pos account_initial;
  mutex = λ a. 0;
  stop_run = false;
  pc = λ i. idle;
}

abbrev pub at_pc : Bank → ℕ → Pc → Bank
at_pc s i c = record s { pc = update s.pc i c }

-- A step of a thread below `threads` on `size` accounts, or of the main thread.
pub data Step (size threads : ℕ) (s : Bank) : Bank → Type 0 where
  update_begins :
      {i a to : ℕ} (m : ℕ)
      → i < threads
      → s.pc i ≡ idle
      → s.stop_run ≡ false
      → a < size
      → to < size
      → Step size threads s (at_pc s i (locking (withdraw a to m)))
  read_begins :
      {i a : ℕ}
      → i < threads
      → s.pc i ≡ idle
      → s.stop_run ≡ false
      → a < size
      → Step size threads s (at_pc s i (locking (get_balance a)))
  takes :
      {i : ℕ} {x : Call}
      → i < threads
      → s.pc i ≡ locking x
      → s.mutex (account_of x) ≡ 0
      → Step size threads s
          (record (at_pc s i (entered x)) { mutex = update s.mutex (account_of x) 1 })
  is_refused :
      {i : ℕ} {x : Call}
      → i < threads
      → s.pc i ≡ locking x
      → s.mutex (account_of x) ≢ 0
      → Step size threads s
          (record (at_pc s i (waiting x)) { mutex = update s.mutex (account_of x) 1 })
  sees_free :
      {i : ℕ} {x : Call}
      → i < threads
      → s.pc i ≡ waiting x
      → s.mutex (account_of x) ≢ 1
      → Step size threads s (at_pc s i (locking x))
  loads :
      {i : ℕ} {x : Call}
      → i < threads
      → s.pc i ≡ entered x
      → Step size threads s (at_pc s i (loaded x (s.balance (account_of x))))
  stores :
      {i : ℕ} {x : Call} {v : ℤ}
      → i < threads
      → s.pc i ≡ loaded x v
      → Step size threads s (record (at_pc s i (stored x)) {
        balance = update s.balance (account_of x) (new_balance x v);
      })
  unlocks :
      {i : ℕ} {x : Call}
      → i < threads
      → s.pc i ≡ stored x
      → Step size threads s
          (record (at_pc s i (after x)) { mutex = update s.mutex (account_of x) 0 })
  finishes :
      {i : ℕ}
      → i < threads
      → s.pc i ≡ idle
      → s.stop_run ≡ true
      → Step size threads s (at_pc s i finished)
  stops : Step size threads s (record s { stop_run = true })

-- The states that the program reaches.
pub data Reachable (size threads : ℕ) : Bank → Type 0 where
  start : Reachable size threads new_bank
  step :
      {s s' : Bank} → Reachable size threads s → Step size threads s s' → Reachable size threads s'

-- The sum of the balances
unfoldable pub sum_of : (ℕ → ℤ) → ℕ → ℤ
sum_of balance zero = pos 0
sum_of balance (suc n) = sum_of balance n +ℤ balance n

-- Whether an int holds the value
abbrev pub is_int : ℤ → Bool
is_int (pos n) = ltb n (2 ^ 31)
is_int (negsuc n) = ltb n (2 ^ 31)

-- The sum that checkResult compares with `size * account_initial`; none where a conversion to int
-- has no meaning, since the value does not fit.
unfoldable pub actual : (ℕ → ℤ) → ℕ → Option ℤ
actual balance zero = some (pos 0)
actual balance (suc n) = elim (actual balance n) [
  | none ↦ none
  | some v ↦ if is_int (v +ℤ balance n) then some (v +ℤ balance n) else none
]
