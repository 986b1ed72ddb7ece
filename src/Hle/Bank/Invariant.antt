-- ===== src/Hle/Bank/Invariant.antt =====
-- The locks of the accounts in the states that the program reaches.
use htmsql.Prelude.{
  ℕ, ◌≡◌, refl, ap, ◌∙◌, Bool, true, false, inl, inr, Bool-cases, arith, ◌==◌, update,
}
use htmsql.Hle.Bank.{
  ℤ, Call, withdraw, deposit, get_balance, account_of, new_balance, Pc, idle, finished, locking,
  waiting, entered, stored, loaded, after, Bank, new_bank, at_pc, Step, update_begins, read_begins,
  takes, is_refused, sees_free, loads, stores, unlocks, finishes, stops, Reachable, start, step,
}

-- Whether the thread holds the lock of the account.
abbrev pub inside : Pc → ℕ → Bool
inside idle a = false
inside finished a = false
inside (locking x) a = false
inside (waiting x) a = false
inside (entered x) a = account_of x == a
inside (loaded x v) a = account_of x == a
inside (stored x) a = account_of x == a

-- A balance that was read is still the balance.
abbrev pub IsCurrent : (ℕ → ℤ) → Pc → Type 0
IsCurrent b (loaded x v) = v ≡ b (account_of x)
IsCurrent b idle = Unit
IsCurrent b finished = Unit
IsCurrent b (locking x) = Unit
IsCurrent b (waiting x) = Unit
IsCurrent b (entered x) = Unit
IsCurrent b (stored x) = Unit

pub record IsLocked (s : Bank) : Type 0 where
  pub one_inside : (i j a : ℕ) → inside (s.pc i) a ≡ true → inside (s.pc j) a ≡ true → i ≡ j
  pub locked : (i a : ℕ) → inside (s.pc i) a ≡ true → s.mutex a ≡ 1
  pub current : (i : ℕ) → IsCurrent s.balance (s.pc i)

new_bank-IsLocked : IsLocked new_bank
unfolding new_bank
new_bank-IsLocked = record { one_inside = λ i j a u v. cc; locked = λ i a u. cc; current = λ i. tt }

-- What holds of the new place of thread `i` and of the old places of the others holds of all.
pub by_thread :
    (s : Bank) (P : Pc → Type 0) (i : ℕ) (c : Pc)
    → P c
    → ((j : ℕ) → (i == j) ≡ false → P (s.pc j))
    → (j : ℕ) → P (update s.pc i c j)
by_thread s P i c new old j = elim (Bool-cases (i == j)) [
  | inl eq ↦ rw eq new
  | inr ne ↦ rw ne (old j ne)
]

-- A write to an account spares what a thread outside its lock has read.
IsCurrent-update :
    (b : ℕ → ℤ) (a : ℕ) (v : ℤ) (c : Pc)
    → IsCurrent b c
    → inside c a ≡ false
    → IsCurrent (update b a v) c
IsCurrent-update b a v idle now out = tt
IsCurrent-update b a v finished now out = tt
IsCurrent-update b a v (locking x) now out = tt
IsCurrent-update b a v (waiting x) now out = tt
IsCurrent-update b a v (entered x) now out = tt
IsCurrent-update b a v (stored x) now out = tt
IsCurrent-update b a v (loaded x w) now out =
    let ne : (a == account_of x) ≡ false = ground arith in rw ne now

-- Behind the unlock, a thread holds no lock and no balance.
inside-after : (x : Call) (a : ℕ) → inside (after x) a ≡ false
unfolding after
inside-after (withdraw b to m) a = refl
inside-after (deposit b m) a = refl
inside-after (get_balance b) a = refl

IsCurrent-after : (b : ℕ → ℤ) (x : Call) → IsCurrent b (after x)
unfolding after
IsCurrent-after b (withdraw a to m) = tt
IsCurrent-after b (deposit a m) = tt
IsCurrent-after b (get_balance a) = tt

module _ {s : Bank} (is : IsLocked s) (i : ℕ) where
  -- The thread goes on where it holds no lock that it did not hold.
  kept :
      (c : Pc)
      → ((a : ℕ) → inside c a ≡ true → inside (s.pc i) a ≡ true)
      → IsCurrent s.balance c
      → IsLocked (at_pc s i c)
  kept c less now = record {
    one_inside = λ j k a u v.
        ground (arith, is.one_inside j k a, is.one_inside i k a, is.one_inside j i a, less a);
    locked = λ j a u. ground (arith, is.locked j a, is.locked i a, less a);
    current = by_thread s (IsCurrent s.balance) i c now λ j ne. is.current j;
  }

  IsLocked-takes :
      (x : Call)
      → s.mutex (account_of x) ≡ 0
      → IsLocked (record (at_pc s i (entered x)) { mutex = update s.mutex (account_of x) 1 })
  IsLocked-takes x free = record {
    one_inside =
        λ j k a u v. ground (arith, is.one_inside j k a, is.locked j a, is.locked k a, free);
    locked = λ j a u. ground (arith, is.locked j a);
    current = by_thread s (IsCurrent s.balance) i (entered x) tt λ j ne. is.current j;
  }

  IsLocked-refused :
      (x : Call)
      → IsLocked (record (at_pc s i (waiting x)) { mutex = update s.mutex (account_of x) 1 })
  IsLocked-refused x = record {
    one_inside = λ j k a u v. ground (arith, is.one_inside j k a);
    locked = λ j a u. ground (arith, is.locked j a);
    current = by_thread s (IsCurrent s.balance) i (waiting x) tt λ j ne. is.current j;
  }

  IsLocked-stores :
      (x : Call) (v w : ℤ)
      → s.pc i ≡ loaded x v
      → IsLocked (record (at_pc s i (stored x)) { balance = update s.balance (account_of x) w })
  IsLocked-stores x v w here =
      let in_x : (a : ℕ) → inside (s.pc i) a ≡ (account_of x == a) =
        λ a. ap (λ c. inside c a) here in
      record {
        one_inside = λ j k a u v.
            ground (arith, is.one_inside j k a, is.one_inside i k a, is.one_inside j i a, in_x a);
        locked = λ j a u. ground (arith, is.locked j a, is.locked i a, in_x a);
        current =
            by_thread s (IsCurrent (update s.balance (account_of x) w)) i (stored x) tt λ j ne.
              IsCurrent-update s.balance (account_of x) w (s.pc j) (is.current j)
                (ground (arith, is.one_inside i j (account_of x), in_x (account_of x)));
      }

  IsLocked-unlocks :
      (x : Call)
      → s.pc i ≡ stored x
      → IsLocked (record (at_pc s i (after x)) { mutex = update s.mutex (account_of x) 0 })
  IsLocked-unlocks x here =
      let in_x : (a : ℕ) → inside (s.pc i) a ≡ (account_of x == a) =
        λ a. ap (λ c. inside c a) here in
      let out : (a : ℕ) → inside (after x) a ≡ false = inside-after x in
      record {
        one_inside = λ j k a u v. ground (arith, is.one_inside j k a, out a);
        locked = λ j a u. ground (arith, is.locked j a, is.one_inside i j a, in_x a, out a);
        current =
            by_thread s (IsCurrent s.balance) i (after x) (IsCurrent-after s.balance x)
              λ j ne. is.current j;
      }

IsLocked-Step : {size threads : ℕ} {s s' : Bank} → IsLocked s → Step size threads s s' → IsLocked s'
IsLocked-Step is (update_begins {i} {a} {to} m lt here go a_lt to_lt) =
    kept is i (locking (withdraw a to m)) (λ b u. cc) tt
IsLocked-Step is (read_begins {i} {a} lt here go a_lt) =
    kept is i (locking (get_balance a)) (λ b u. cc) tt
IsLocked-Step is (takes {i} {x} lt here free) = IsLocked-takes is i x free
IsLocked-Step is (is_refused {i} {x} lt here busy) = IsLocked-refused is i x
IsLocked-Step is (sees_free {i} {x} lt here free) = kept is i (locking x) (λ b u. cc) tt
IsLocked-Step {s} is (loads {i} {x} lt here) =
    kept is i (loaded x (s.balance (account_of x))) (λ b u. ap (λ c. inside c b) here ∙ u) refl
IsLocked-Step is (stores {i} {x} {v} lt here) = IsLocked-stores is i x v (new_balance x v) here
IsLocked-Step is (unlocks {i} {x} lt here) = IsLocked-unlocks is i x here
IsLocked-Step is (finishes {i} lt here over) = kept is i finished (λ b u. cc) tt
IsLocked-Step is stops = record {
  one_inside = is.one_inside;
  locked = is.locked;
  current = is.current;
}

-- In every reachable state, a lock is held by one thread at most, its word is then 1, and a balance
-- that a thread has read under it is still the balance.
pub Reachable-IsLocked : {size threads : ℕ} {s : Bank} → Reachable size threads s → IsLocked s
Reachable-IsLocked start = new_bank-IsLocked
Reachable-IsLocked (step r m) = IsLocked-Step (Reachable-IsLocked r) m
