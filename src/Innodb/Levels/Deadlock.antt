-- ===== src/Innodb/Levels/Deadlock.antt =====
-- Threads that wait for each other through latches of the levels that sync_thread_add_level orders. That
-- function is called behind the acquisition of a latch, so a thread that waits has not been checked
-- for the latch that it wants.
use htmsql.Prelude.{
  ℕ, zero, suc, ◌≤◌, ◌<◌, ◌≡◌, sym, ◌∙◌, ◌⊎◌, inl, inr, Bool, true, false, Bool-cases, ℕ_discrete,
  subst, arith,
}
use htmsql.Innodb.Levels.{SyncArr, order_ok, plain_levels, one_of}
use htmsql.Innodb.Levels.Bound.{Holds, g-Holds, order_ok-plain}

-- A thread that waits: what it holds, and the level of the latch that it wants
pub record Waiter : Type 0 where
  pub array : SyncArr
  pub wants : ℕ

-- Threads 0 to n wait in a circle for latches of plain levels: each for one that the next thread
-- holds, and the last for one of thread 0.
pub record IsCircle (n : ℕ) (w : ℕ → Waiter) : Type 0 where
  pub plain : (i : ℕ) → i ≤ n → one_of (w i).wants plain_levels ≡ true
  pub held : (i : ℕ) → i < n → Holds (w (suc i)).array (w i).wants
  pub closed : Holds (w 0).array (w n).wants

all_or_one :
    (p : ℕ → Bool) (n : ℕ) → ((i : ℕ) → i ≤ n → p i ≡ true) ⊎ ((i : ℕ) × (i ≤ n) × (p i ≡ false))
all_or_one p zero = elim (Bool-cases (p 0)) [
  | inl e ↦ inl (λ i le. subst (λ j. p j ≡ true) (omega arith) e)
  | inr e ↦ inr (0, omega arith, e)
]
all_or_one p (suc n) = elim (all_or_one p n) [
  | inr (i, le, e) ↦ inr (i, omega arith, e)
  | inl below ↦ elim (Bool-cases (p (suc n))) [
    | inr e ↦ inr (suc n, omega arith, e)
    | inl e ↦ inl (λ i le. elim (ℕ_discrete i (suc n)) [
      | yes same ↦ subst (λ j. p j ≡ true) (sym same) e
      | no other ↦ below i (omega arith)
    ])
  ]
]

module _ (starting prints : Bool) {n : ℕ} {w : ℕ → Waiter} (c : IsCircle n w) where
  abbrev ok : ℕ → Bool
  ok i = order_ok starting prints (w i).array (w i).wants

  above :
      ((i : ℕ) → i ≤ n → ok i ≡ true)
      → (i level : ℕ) → i ≤ n
      → Holds (w i).array level
      → (w i).wants < level
  above all i level h =
      (g-Holds (w i).array (w i).wants).0
        (sym (order_ok-plain starting prints (w i).array (w i).wants (c.plain i h)) ∙ all i h) level

  wants-le : ((i : ℕ) → i ≤ n → ok i ≡ true) → (k : ℕ) → k ≤ n → (w k).wants ≤ (w 0).wants
  wants-le all zero h = omega arith
  wants-le all (suc k) h =
      omega (arith, above all (suc k) (w k).wants h (c.held k h), wants-le all k (omega arith))

  -- Where threads wait for each other in a circle through latches of plain levels, at least one of them
  -- waits for a latch that the check of the latching order refuses with what it holds: had it got
  -- this latch, sync_thread_add_level would have failed an assertion.
  pub circle-refused :
      (i : ℕ) × (i ≤ n) × (order_ok starting prints (w i).array (w i).wants ≡ false)
  circle-refused = elim (all_or_one ok n) [
    | inr found ↦ found
    | inl all ↦ absurd (
        omega (arith, above all 0 (w n).wants (omega arith) c.closed, wants-le all n (omega arith)))
  ]
