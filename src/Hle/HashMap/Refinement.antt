-- ===== src/Hle/HashMap/Refinement.antt =====
-- The hash map and sets of numbers, over sequences of calls; contains and countElements.
use htmsql.Prelude.{
  ℕ, zero, suc, ◌+◌, ◌≤◌, ◌<◌, ◌≡◌, ◌≢◌, refl, ap, Bool, false, not, ◌&&◌, ◌||◌, inl, inr,
  Option-cases, Option, none, some, List, [], ◌∷◌, arith, ◌==◌, length, All,
}
use htmsql.Hle.Run.{Ptr, null, ok, ◌>>=◌, pure, Returns, Returns-bind, returns, is_held}
use htmsql.Hle.Nodes.{Nodes, among, all_distinct}
use htmsql.Hle.Chain.{nil}
use htmsql.Hle.HashMap.{
  State, Action, hash, in_bucket, new_map, insert, remove, contains, count_buckets, count_elements,
}
use htmsql.Hle.HashMap.Walk.{contains_loop-among, count_loop-length}
use htmsql.Hle.HashMap.Buckets.{IsMap, hash-lt}
use htmsql.Hle.HashMap.Holds.{holds, holds-here}
use htmsql.Hle.HashMap.Insert.{insert-Holding}
use htmsql.Hle.HashMap.Remove.{remove-Lacking}

-- The numbers of elements of `n` buckets from bucket `h` on.
unfoldable pub total : (ℕ → Nodes) → (n h : ℕ) → ℕ
total f zero h = 0
total f (suc n) h = length (f h) + total f n (h + 1)

module _ {size : ℕ} {s : State} {f : ℕ → Nodes} (k : ℕ) (is : IsMap size s f)
    (fuel : (h : ℕ) → h < size → length (f h) < k) where
  count_buckets-total :
      (n h m : ℕ) → h + n ≤ size → count_buckets k n h m s ≡ ok (m + total f n h) s
  unfolding count_buckets total
  count_buckets-total zero h m within = ap (λ c. ok c s) (omega arith)
  count_buckets-total (suc n) h m within =
      rw
        (
          is.bucket h (omega arith),
          count_loop-length k m (is.chain h (omega arith)) (fuel h (omega arith)),
          count_buckets-total n (h + 1) (m + length (f h)) (omega arith),
        )
        (ap (λ c. ok c s) (omega arith))

  -- countElements adds up the lengths of the buckets, and changes nothing.
  pub count_elements-total : count_elements size k s ≡ ok (total f size 0) s
  unfolding count_elements
  count_elements-total =
      rw (count_buckets-total size 0 0 (omega arith)) (ap (λ c. ok c s) (omega arith))

-- contains ends with whether the map holds the value, and changes nothing.
pub contains-holds :
    {size : ℕ} {s : State} {f : ℕ → Nodes} (d h k : ℕ)
    → IsMap size s f
    → 0 < size
    → hash size d ≡ some h
    → length (f h) < k
    → contains size k d s ≡ ok (holds size f d) s
unfolding contains in_bucket
contains-holds {size} {f} d h k is pos at_h fuel =
    let lt = hash-lt size d h pos at_h in
    rw (
      at_h,
      is.bucket h lt,
      contains_loop-among d k (is.chain h lt) fuel,
      holds-here size h d f at_h,
    )

-- A call of one of the three operations.
pub data Call : Type 0 where
  inserts removes asks_for : ℕ → Call

abbrev pub value_of : Call → ℕ
value_of (inserts d) = d
value_of (removes d) = d
value_of (asks_for d) = d

-- The specification: a set, and whether the value was in it; the item that insert returns is no part
-- of the abstract view.
unfoldable pub specified : Call → (ℕ → Bool) → Option Bool × (ℕ → Bool)
specified (inserts d) set = (none, λ w. (d == w) || set w)
specified (removes d) set = (some (set d), λ w. not (d == w) && set w)
specified (asks_for d) set = (some (set d), set)

unfoldable pub specified_all : List Call → (ℕ → Bool) → List (Option Bool) × (ℕ → Bool)
specified_all [] set = ([], set)
specified_all (c ∷ cs) set =
    let (a, set') = specified c set in let (rest, end) = specified_all cs set' in (a ∷ rest, end)

-- The implementation; `new` is the function from the addresses in use to a new one.
module _ (new : List Ptr → Ptr) (size fuel : ℕ) where
  unfoldable pub called : Call → Action (Option Bool)
  called (inserts d) = λ s. (do _ ← insert size fuel (new s.live) d; pure none) s
  called (removes d) = do b ← remove size fuel d; pure (some b)
  called (asks_for d) = do b ← contains size fuel d; pure (some b)

  unfoldable pub called_all : List Call → Action (List (Option Bool))
  called_all [] = pure []
  called_all (c ∷ cs) = do a ← called c; rest ← called_all cs; pure (a ∷ rest)

-- The map stands for the set, with at most `m` items in a bucket.
abbrev pub StandsFor : ℕ → ℕ → (ℕ → Bool) → State → Type 0
StandsFor size m set s =
    (f : ℕ → Nodes) × IsMap size s f
    × ((w : ℕ) → holds size f w ≡ set w)
    × ((j : ℕ) → j < size → length (f j) ≤ m)

-- The answer and the new map are those of the specification.
abbrev pub Agrees : {A : Type 0} → ℕ → ℕ → A × (ℕ → Bool) → A → State → Type 0
Agrees size m (a, set) b s = (b ≡ a) × StandsFor size m set s

-- The value has a bucket: its remainder is not negative.
abbrev pub IsHashed : ℕ → ℕ → Type 0
IsHashed size d = (h : ℕ) × (hash size d ≡ some h)

module _ (new : List Ptr → Ptr)
    (new-unused : (live : List Ptr) → (new live ≢ null) × (is_held (new live) live ≡ false))
    (size fuel : ℕ) (pos : 0 < size) where
  map_call-Agrees :
      (c : Call) (m : ℕ) (set : ℕ → Bool) {s : State}
      → IsHashed size (value_of c)
      → StandsFor size m set s
      → m < fuel
      → Returns (Agrees size (m + 1) (specified c set)) (called new size fuel c s)
  unfolding specified called
  map_call-Agrees (inserts d) m set {s} (h, at_h) (f, is, eq, short) enough =
      let lt = hash-lt size d h pos at_h in
      Returns-bind
        (insert-Holding d h (new s.live) fuel is pos at_h (new-unused s.live).0
          (new-unused s.live).1 (omega (arith, short h lt)))
        λ q g (f', is', holds', longer, _, _).
          returns (
            refl,
            (f', is', (λ w. rw (holds' w, eq w)), λ j lj. omega (arith, longer j, short j lj)),
          )
  map_call-Agrees (removes d) m set (h, at_h) (f, is, eq, short) enough =
      let lt = hash-lt size d h pos at_h in
      Returns-bind (remove-Lacking d h fuel is pos at_h (omega (arith, short h lt)))
        λ b g (f', is', holds', shorter, was). returns (
          rw (was, eq d),
          (f', is', (λ w. rw (holds' w, eq w)), λ j lj. omega (arith, shorter j, short j lj)),
        )
  map_call-Agrees (asks_for d) m set (h, at_h) (f, is, eq, short) enough =
      let lt = hash-lt size d h pos at_h in
      rw (contains-holds d h fuel is pos at_h (omega (arith, short h lt)))
        (returns (rw (eq d), (f, is, eq, λ j lj. omega (arith, short j lj))))

  -- Refinement: from a map that stands for a set, with a `new` that finds an unused address, with at
  -- least one bucket, for values that have a bucket, and with fuel above the length of the buckets and
  -- the number of calls together, every sequence of calls ends without a fault, answers as the set
  -- does, and leaves a well-formed map that stands for the resulting set.
  pub map_calls-Agrees :
      (cs : List Call) (m : ℕ) (set : ℕ → Bool) {s : State}
      → All (λ c. IsHashed size (value_of c)) cs
      → StandsFor size m set s
      → m + length cs < fuel
      → Returns (Agrees size (m + length cs) (specified_all cs set)) (called_all new size fuel cs s)
  unfolding specified_all called_all
  map_calls-Agrees [] m set hashed (f, is, eq, short) enough =
      returns (refl, (f, is, eq, λ j lj. omega (arith, short j lj)))
  map_calls-Agrees (c ∷ cs) m set (hashed, rest_hashed) stands enough =
      Returns-bind (map_call-Agrees c m set hashed stands (omega arith)) λ a g (same, stands').
        Returns-bind (map_calls-Agrees cs (m + 1) _ rest_hashed stands' (omega arith))
          λ rest g' (same', (f, is, eq, short)).
            returns (rw (same, same'), (f, is, eq, λ j lj. omega (arith, short j lj)))

holds-empty : (size w : ℕ) → holds size (λ h. []) w ≡ false
unfolding holds among
holds-empty size w = elim (Option-cases (hash size w)) [ inl n ↦ rw n | inr (h, e) ↦ rw e ]

-- The map that the constructor makes is well formed and stands for the empty set.
pub new_map-IsMap : (size : ℕ) (live : List Ptr) → IsMap size (new_map live) (λ h. [])
unfolding new_map among all_distinct
new_map-IsMap size live = record {
  bucket = λ h lt. refl;
  chain = λ h lt. nil;
  apart = λ i j li lj ne a i'. refl;
  hashed = λ h v lt i. cc;
  distinct = λ h lt. refl;
}

pub new_map-StandsFor : (size : ℕ) (live : List Ptr) → StandsFor size 0 (λ w. false) (new_map live)
new_map-StandsFor size live =
    (λ h. [], new_map-IsMap size live, (λ w. holds-empty size w), λ j lj. omega arith)
