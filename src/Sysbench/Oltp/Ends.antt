-- ===== src/Sysbench/Oltp/Ends.antt =====
-- Outcomes of commands: one that ends in a result, one that jumps to `memfail`, and a fault, which
-- needs a call of malloc that fails.
use htmsql.Prelude.{ℕ, ◌≡◌, refl, subst, Bool, true, false}
use htmsql.Sysbench.Oltp.{World, Oltp, Run, done, memfail, fault, Cmd, and_then, when}

abbrev pub OutOfMemory : World → Type 0
OutOfMemory w = (n : ℕ) × (w.malloc n ≡ false)

-- `P` holds of the result and the state, `Q` of the state at the jump.
pub data Ends (w : World) {A : Type 0} (P : A → Oltp → Type 0) (Q : Oltp → Type 0)
    : Run A → Type 0 where
  ended : {a : A} {s : Oltp} → P a s → Ends w P Q (done a s)
  jumped : {s : Oltp} → OutOfMemory w → Q s → Ends w P Q (memfail s)
  faulted : OutOfMemory w → Ends w P Q fault

module _ {w : World} {Q : Oltp → Type 0} where
  pub Ends-bind :
      {A B : Type 0} {P : A → Oltp → Type 0} {R : B → Oltp → Type 0} {r : Run A} {k : A → Cmd B}
      → Ends w P Q r
      → ((a : A) (s : Oltp) → P a s → Ends w R Q (k a s))
      → Ends w R Q (and_then r k)
  Ends-bind (ended p) next = next _ _ p
  Ends-bind (jumped o q) next = jumped o q
  Ends-bind (faulted o) next = faulted o

  pub Ends-mono :
      {A : Type 0} {P R : A → Oltp → Type 0} {r : Run A}
      → Ends w P Q r
      → ((a : A) (s : Oltp) → P a s → R a s)
      → Ends w R Q r
  Ends-mono (ended p) weaken = ended (weaken _ _ p)
  Ends-mono (jumped o q) weaken = jumped o q
  Ends-mono (faulted o) weaken = faulted o

  pub Ends-when :
      {P : Unit {0} → Oltp → Type 0} {s : Oltp} (b : Bool) (m : Cmd (Unit {0}))
      → (b ≡ true → Ends w P Q (m s))
      → (b ≡ false → P tt s)
      → Ends w P Q (when b m s)
  Ends-when true m does skips = does refl
  Ends-when false m does skips = ended (skips refl)

Ends-at :
    {w : World} {A : Type 0} {P : A → Oltp → Type 0} {Q : Oltp → Type 0} {a : A} {s : Oltp}
    → Ends w P Q (done a s)
    → P a s
Ends-at (ended p) = p

-- What holds of the result of a run that is done
pub Ends-done :
    {w : World} {A : Type 0} {P : A → Oltp → Type 0} {Q : Oltp → Type 0} {r : Run A} (a : A)
    (s : Oltp)
    → Ends w P Q r
    → r ≡ done a s
    → P a s
Ends-done a s e same = Ends-at (subst (Ends _ _ _) same e)
