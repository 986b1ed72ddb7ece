-- ===== src/Hle/Run.antt =====
-- Commands on a heap: they may read an address that holds no object, leave the process, or run out
-- of fuel. NULL is 0, and a heap knows the addresses that hold an object.
use htmsql.Prelude.{ℕ, ◌≡◌, Bool, false, not, ◌&&◌, ◌||◌, List, [], ◌∷◌, arith, if◌then◌else◌, ◌==◌}

abbrev pub Ptr : Type 0
Ptr = ℕ

abbrev pub null : Ptr
null = 0

pub data Run (S A : Type 0) : Type 0 where
  ok : A → S → Run S A
  fault : Run S A
  exit : Run S A
  out_of_fuel : Run S A

abbrev pub Cmd : Type 0 → Type 0 → Type 0
Cmd S A = S → Run S A

module _ {S : Type 0} where
  abbrev pub pure : {A : Type 0} → A → Cmd S A
  pure = ok

  abbrev pub and_then : {A B : Type 0} → Run S A → (A → Cmd S B) → Run S B
  and_then (ok a s) k = k a s
  and_then fault k = fault
  and_then exit k = exit
  and_then out_of_fuel k = out_of_fuel

  infixl 5 ◌>>=◌ ◌>>◌
  abbrev pub ◌>>=◌ : {A B : Type 0} → Cmd S A → (A → Cmd S B) → Cmd S B
  m >>= k = λ s. and_then (m s) k

  abbrev pub ◌>>◌ : {A B : Type 0} → Cmd S A → Cmd S B → Cmd S B
  m >> n = m >>= λ _. n

  -- The run comes to an end without a fault, in a result and a state of which `P` holds.
  pub data Returns {A : Type 0} (P : A → S → Type 0) : Run S A → Type 0 where
    returns : {a : A} {s : S} → P a s → Returns P (ok a s)

  pub Returns-bind :
      {A B : Type 0} {P : A → S → Type 0} {Q : B → S → Type 0} {r : Run S A} {k : A → Cmd S B}
      → Returns P r
      → ((a : A) (s : S) → P a s → Returns Q (k a s))
      → Returns Q (and_then r k)
  Returns-bind (returns p) next = next _ _ p

  pub Returns-mono :
      {A : Type 0} {P Q : A → S → Type 0} {r : Run S A}
      → Returns P r
      → ((a : A) (s : S) → P a s → Q a s)
      → Returns Q r
  Returns-mono (returns p) weaken = returns (weaken _ _ p)

abbrev pub is_held : Ptr → List Ptr → Bool
is_held p [] = false
is_held p (q ∷ qs) = (p == q) || is_held p qs

-- The addresses without `p`.
abbrev pub dropped : Ptr → List Ptr → List Ptr
dropped p [] = []
dropped p (q ∷ qs) = let rest = dropped p qs in if p == q then rest else q ∷ rest

-- `p` is no NULL and holds an object.
unfoldable pub is_item : List Ptr → Ptr → Bool
is_item live p = not (p == null) && is_held p live

pub is_held-dropped :
    (a p : Ptr) (l : List Ptr) → is_held a (dropped p l) ≡ (not (a == p) && is_held a l)
is_held-dropped a p [] = ground arith
is_held-dropped a p (q ∷ qs) = ground (arith, is_held-dropped a p qs)
