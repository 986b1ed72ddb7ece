-- ===== src/Hle/Locks/Exclusion.antt =====
-- The word of a lock under the loops of all lock functions.
use htmsql.Prelude.{ℕ, ◌≡◌, refl, ◌≢◌, arith}
use htmsql.Hle.Locks.{
  Loop, busy, spec, checked, Pc, inside, exchanging, first_pc, refused_pc, System, at_pc, Step,
  calls, takes, is_refused, sees_free, unlocks, Reach, start, later,
}

record IsLocked (s : System) : Type 0 where
  unique : (i j : ℕ) → s.pc i ≡ inside → s.pc j ≡ inside → i ≡ j
  taken : (i : ℕ) → s.pc i ≡ inside → s.word ≡ 1
  owned : s.word ≢ 0 → (s.word ≡ 1) × ((i : ℕ) × (s.pc i ≡ inside))

first-ne-inside : (l : Loop) → first_pc l ≢ inside
unfolding first_pc
first-ne-inside busy e = cc
first-ne-inside spec e = cc
first-ne-inside checked e = cc

refused-ne-inside : (l : Loop) → refused_pc l ≢ inside
unfolding refused_pc
refused-ne-inside busy e = cc
refused-ne-inside spec e = cc
refused-ne-inside checked e = cc

module _ {s : System} (h : IsLocked s) (t : ℕ) where
  -- A thread that goes on outside of the lock
  stays_out : (p : Pc) → s.pc t ≢ inside → p ≢ inside → IsLocked (at_pc s t p)
  stays_out p was is = record {
    unique = λ i j a b. ground (arith, h.unique i j);
    taken = λ i a. ground (arith, h.taken i);
    owned = λ n. let (one, (i, at)) = h.owned n in (one, (i, ground arith));
  }

Step-IsLocked : {s u : System} → Step s u → IsLocked s → IsLocked u
Step-IsLocked {s} (calls {t} {l} k chosen e) h =
    stays_out h t (first_pc l) (λ i. cc) (first-ne-inside l)
Step-IsLocked {s} (takes {t} {l} e free) h = record {
  unique = λ i j a b. ground (arith, h.taken i, h.taken j);
  taken = λ i a. refl;
  owned = λ n. (refl, (t, ground arith));
}
Step-IsLocked {s} (is_refused {t} {l} e held) h = record {
  unique = λ i j a b. ground (arith, refused-ne-inside l, h.unique i j);
  taken = λ i a. refl;
  owned = λ n. let (one, (i, at)) = h.owned held in (refl, (i, ground arith));
}
Step-IsLocked {s} (sees_free {t} {l} e other) h = stays_out h t (exchanging l) (λ i. cc) (λ i. cc)
Step-IsLocked {s} (unlocks {t} e) h = record {
  unique = λ i j a b. ground (arith, h.unique i j);
  taken = λ i a. absurd (ground (arith, h.unique i t));
  owned = λ n. absurd (n refl);
}

Reach-IsLocked : {s : System} → Reach s → IsLocked s
Reach-IsLocked start = record {
  unique = λ i j a b. cc;
  taken = λ i a. cc;
  owned = λ n. absurd (n refl);
}
Reach-IsLocked (later r st) = Step-IsLocked st (Reach-IsLocked r)

-- Whatever mix of the types whose lock is a word the threads lock it by: in every reachable state at most one thread is
-- between its lock and its unlock, and the word is 1 while one is and 0 while none is.
pub lock_exclusion :
    {s : System}
    → Reach s
    → ((i j : ℕ) → s.pc i ≡ inside → s.pc j ≡ inside → i ≡ j)
      × ((i : ℕ) → s.pc i ≡ inside → s.word ≡ 1)
      × (s.word ≢ 0 → (s.word ≡ 1) × ((i : ℕ) × (s.pc i ≡ inside)))
lock_exclusion r = let h = Reach-IsLocked r in (h.unique, h.taken, h.owned)
