-- ===== src/Hle/Bank/Conservation.antt =====
-- The money of the accounts and of the threads between them.
use htmsql.Prelude.{
  ℕ, zero, suc, ◌+◌, ◌*◌, ◌<◌, ◌≤◌, ◌≡◌, some, refl, sym, ap, subst, ◌∙◌, Bool, true, arith, ◌&&◌,
  ltb, update,
}
use htmsql.Hle.Bank.{
  ℤ, pos, Call, withdraw, deposit, get_balance, account_of, new_balance, Pc, idle, finished,
  locking, waiting, entered, stored, loaded, after, Bank, new_bank, at_pc, account_initial, sum_of,
  is_int, actual, Step, update_begins, read_begins, takes, is_refused, sees_free, loads, stores,
  unlocks, finishes, stops, Reachable, start, step,
}
use htmsql.Prelude.Sums.{total, total-update}
use htmsql.Hle.Bank.Totals.{
  credit, debt, credit-add_nat, credit-sub_nat, credit-sum_of, pos_of_credit,
}
use htmsql.Hle.Bank.Invariant.{by_thread, IsCurrent, IsLocked, Reachable-IsLocked}

-- The money of a call that is on its way before the call stores the balance, and behind that.
abbrev pub before_store : Call → ℕ
before_store (withdraw a to m) = 0
before_store (deposit a m) = m
before_store (get_balance a) = 0

abbrev pub behind_store : Call → ℕ
behind_store (withdraw a to m) = m
behind_store (deposit a m) = 0
behind_store (get_balance a) = 0

-- The money that a thread has withdrawn and not yet deposited.
abbrev pub on_way : Pc → ℕ
on_way idle = 0
on_way finished = 0
on_way (locking x) = before_store x
on_way (waiting x) = before_store x
on_way (entered x) = before_store x
on_way (loaded x v) = before_store x
on_way (stored x) = behind_store x

-- Every account that a call names is one of the first `size`.
abbrev pub in_range : ℕ → Call → Bool
in_range size (withdraw a to m) = ltb a size && ltb to size
in_range size (deposit a m) = ltb a size
in_range size (get_balance a) = ltb a size

abbrev pub is_ranged : ℕ → Pc → Bool
is_ranged size idle = true
is_ranged size finished = true
is_ranged size (locking x) = in_range size x
is_ranged size (waiting x) = in_range size x
is_ranged size (entered x) = in_range size x
is_ranged size (loaded x v) = in_range size x
is_ranged size (stored x) = in_range size x

-- The accounts and the money on its way make up what the accounts had at first.
abbrev pub Conserved : ℕ → ℕ → (ℕ → ℤ) → (ℕ → Pc) → Type 0
Conserved size threads b pc =
    total credit b size + total on_way pc threads ≡ total debt b size + size * account_initial

record IsBalanced (size threads : ℕ) (s : Bank) : Type 0 where
  ranged : (i : ℕ) → is_ranged size (s.pc i) ≡ true
  conserved : Conserved size threads s.balance s.pc

total-initial :
    (n : ℕ)
    → total credit (λ a. pos account_initial) n
      ≡ total debt (λ a. pos account_initial) n + n * account_initial
unfolding total
total-initial zero = refl
total-initial (suc n) = omega (arith, total-initial n)

total-idle : (n : ℕ) → total on_way (λ i. idle) n ≡ 0
unfolding total
total-idle zero = refl
total-idle (suc n) = omega (arith, total-idle n)

new_bank-IsBalanced : (size threads : ℕ) → IsBalanced size threads new_bank
unfolding new_bank
new_bank-IsBalanced size threads = record {
  ranged = λ i. refl;
  conserved = omega (arith, total-initial size, total-idle threads);
}

-- What a call writes differs from what it read by the money that it moves.
new_balance_lem :
    (x : Call) (v : ℤ)
    → credit (new_balance x v) + behind_store x + debt v
      ≡ credit v + before_store x + debt (new_balance x v)
unfolding new_balance
new_balance_lem (withdraw a to m) v = omega (arith, credit-sub_nat v m)
new_balance_lem (deposit a m) v = omega (arith, credit-add_nat v m)
new_balance_lem (get_balance a) v = omega arith

account_of-lt : (size : ℕ) (x : Call) → in_range size x ≡ true → account_of x < size
unfolding account_of
account_of-lt size (withdraw a to m) e = ground arith
account_of-lt size (deposit a m) e = ground arith
account_of-lt size (get_balance a) e = ground arith

on_way-after : (x : Call) → on_way (after x) ≡ behind_store x
unfolding after
on_way-after (withdraw a to m) = refl
on_way-after (deposit a m) = refl
on_way-after (get_balance a) = refl

ranged-after : (size : ℕ) (x : Call) → in_range size x ≡ true → is_ranged size (after x) ≡ true
unfolding after
ranged-after size (withdraw a to m) e = ground arith
ranged-after size (deposit a m) e = refl
ranged-after size (get_balance a) e = refl

module _ {size threads : ℕ} {s : Bank} (is : IsBalanced size threads s) {i : ℕ}
    (lt : i < threads) where
  -- The thread goes on with the same money on its way.
  moved :
      (c : Pc) (mutex : ℕ → ℕ)
      → is_ranged size c ≡ true
      → on_way c ≡ on_way (s.pc i)
      → IsBalanced size threads (record (at_pc s i c) { mutex = mutex })
  moved c mutex in_c same = record {
    ranged = by_thread s (λ d. is_ranged size d ≡ true) i c in_c λ j ne. is.ranged j;
    conserved = omega (arith, is.conserved, total-update on_way s.pc i c threads lt, same);
  }

  stored-IsBalanced :
      (x : Call) (v : ℤ)
      → s.pc i ≡ loaded x v
      → v ≡ s.balance (account_of x)
      → IsBalanced size threads (record (at_pc s i (stored x)) {
        balance = update s.balance (account_of x) (new_balance x v);
      })
  stored-IsBalanced x v here now =
      let in_x : in_range size x ≡ true = sym (ap (is_ranged size) here) ∙ is.ranged i in
      let a_lt = account_of-lt size x in_x in
      record {
        ranged = by_thread s (λ d. is_ranged size d ≡ true) i (stored x) in_x λ j ne. is.ranged j;
        conserved = omega (
          arith,
          is.conserved,
          new_balance_lem x v,
          ap credit now,
          ap debt now,
          ap on_way here,
          total-update credit s.balance (account_of x) (new_balance x v) size a_lt,
          total-update debt s.balance (account_of x) (new_balance x v) size a_lt,
          total-update on_way s.pc i (stored x) threads lt,
        );
      }

  -- The call at which the thread is.
  range_here : (c : Pc) → s.pc i ≡ c → is_ranged size c ≡ true
  range_here c here = sym (ap (is_ranged size) here) ∙ is.ranged i

  way_here : (c d : Pc) → s.pc i ≡ c → on_way d ≡ on_way c → on_way d ≡ on_way (s.pc i)
  way_here c d here same = same ∙ sym (ap on_way here)

IsBalanced-Step :
    {size threads : ℕ} {s s' : Bank}
    → IsLocked s
    → IsBalanced size threads s
    → Step size threads s s'
    → IsBalanced size threads s'
IsBalanced-Step {s} l is (update_begins {a} {to} m lt here go a_lt to_lt) =
    moved is lt (locking (withdraw a to m)) s.mutex (ground arith)
      (way_here is lt idle (locking (withdraw a to m)) here refl)
IsBalanced-Step {s} l is (read_begins {a} lt here go a_lt) =
    moved is lt (locking (get_balance a)) s.mutex (ground arith)
      (way_here is lt idle (locking (get_balance a)) here refl)
IsBalanced-Step l is (takes {x} lt here free) =
    moved is lt (entered x) _ (range_here is lt (locking x) here)
      (way_here is lt (locking x) (entered x) here refl)
IsBalanced-Step l is (is_refused {x} lt here busy) =
    moved is lt (waiting x) _ (range_here is lt (locking x) here)
      (way_here is lt (locking x) (waiting x) here refl)
IsBalanced-Step {s} l is (sees_free {x} lt here free) =
    moved is lt (locking x) s.mutex (range_here is lt (waiting x) here)
      (way_here is lt (waiting x) (locking x) here refl)
IsBalanced-Step {s} l is (loads {x} lt here) =
    moved is lt (loaded x (s.balance (account_of x))) s.mutex (range_here is lt (entered x) here)
      (way_here is lt (entered x) (loaded x (s.balance (account_of x))) here refl)
IsBalanced-Step {s} l is (stores {i} {x} {v} lt here) =
    stored-IsBalanced is lt x v here (subst (IsCurrent s.balance) here (l.current i))
IsBalanced-Step {size} l is (unlocks {x} lt here) =
    moved is lt (after x) _ (ranged-after size x (range_here is lt (stored x) here))
      (way_here is lt (stored x) (after x) here (on_way-after x))
IsBalanced-Step {s} l is (finishes lt here over) =
    moved is lt finished s.mutex refl (way_here is lt idle finished here refl)
IsBalanced-Step l is stops = record { ranged = is.ranged; conserved = is.conserved }

Reachable-IsBalanced :
    {size threads : ℕ} {s : Bank} → Reachable size threads s → IsBalanced size threads s
Reachable-IsBalanced {size} {threads} start = new_bank-IsBalanced size threads
Reachable-IsBalanced (step r m) = IsBalanced-Step (Reachable-IsLocked r) (Reachable-IsBalanced r) m

-- In every reachable state, the balances of all accounts and the money that the threads have withdrawn
-- and not yet deposited make up the initial balances, at any interleaving of the threads.
pub Reachable-Conserved :
    {size threads : ℕ} {s : Bank} → Reachable size threads s → Conserved size threads s.balance s.pc
Reachable-Conserved r = IsBalanced.conserved (Reachable-IsBalanced r)

total-finished : (pc : ℕ → Pc) (n : ℕ) → ((i : ℕ) → i < n → pc i ≡ finished) → total on_way pc n ≡ 0
unfolding total
total-finished pc zero over = refl
total-finished pc (suc n) over =
    omega
      (arith, total-finished pc n (λ i lt. over i (omega arith)), ap on_way (over n (omega arith)))

sum_of-initial :
    {size threads : ℕ} {s : Bank}
    → Reachable size threads s
    → ((i : ℕ) → i < threads → s.pc i ≡ finished)
    → sum_of s.balance size ≡ pos (size * account_initial)
sum_of-initial {size} {threads} {s} r over =
    pos_of_credit (sum_of s.balance size) (size * account_initial) (
      omega (
        arith,
        Reachable-Conserved r,
        total-finished s.pc threads over,
        credit-sum_of s.balance size,
      ))

actual-sum_of :
    (balance : ℕ → ℤ) (n : ℕ)
    → ((k : ℕ) → k ≤ n → is_int (sum_of balance k) ≡ true)
    → actual balance n ≡ some (sum_of balance n)
unfolding actual sum_of
actual-sum_of balance zero fits = refl
actual-sum_of balance (suc n) fits =
    rw (actual-sum_of balance n (λ k le. fits k (omega (arith, le))), fits (suc n) (omega arith))
      refl

-- When all threads have come to their ends, and the sums of the balances on the way to the last account
-- are values of an int, the sum that checkResult computes is the one that it expects: the number of
-- accounts times the initial balance.
pub checked_sum :
    {size threads : ℕ} {s : Bank}
    → Reachable size threads s
    → ((i : ℕ) → i < threads → s.pc i ≡ finished)
    → ((k : ℕ) → k ≤ size → is_int (sum_of s.balance k) ≡ true)
    → actual s.balance size ≡ some (pos (size * account_initial))
checked_sum {size} {s = s} r over fits =
    actual-sum_of s.balance size fits ∙ ap some (sum_of-initial r over)
