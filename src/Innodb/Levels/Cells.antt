-- ===== src/Innodb/Levels/Cells.antt =====
-- The cells of a level array: the free list, the number of latches held, and what `reserve` and
-- `free_cell` do to the collection of latches.
use htmsql.Prelude.{
  ℕ, zero, suc, ◌+◌, ◌≤◌, ◌<◌, ◌≡◌, refl, sym, subst, ◌≢◌, Bool, true, false, not, List, [], ◌∷◌,
  Option, none, some, arith, inl, inr, Bool-cases, All, length, ltb, update,
}
use htmsql.Innodb.Levels.{SyncLevel, SyncArr, is_null, ulint_undefined}

abbrev pub to_nat : Bool → ℕ
to_nat true = 1
to_nat false = 0

-- How many of the first `n` cells pass the test.
unfoldable pub count : (SyncLevel → Bool) → (ℕ → SyncLevel) → ℕ → ℕ
count test elems zero = 0
count test elems (suc n) = count test elems n + to_nat (test (elems n))

abbrev pub is_held : SyncLevel → Bool
is_held s = not (is_null s.latch)

pub count-update_of_le :
    (test : SyncLevel → Bool) (elems : ℕ → SyncLevel) (n i : ℕ) (s : SyncLevel)
    → n ≤ i
    → count test (update elems i s) n ≡ count test elems n
unfolding count
count-update_of_le test elems zero i s h = refl
count-update_of_le test elems (suc n) i s h = ground (arith, count-update_of_le test elems n i s)

pub count-update :
    (test : SyncLevel → Bool) (elems : ℕ → SyncLevel) (n i : ℕ) (s : SyncLevel)
    → i < n
    → count test (update elems i s) n + to_nat (test (elems i))
      ≡ count test elems n + to_nat (test s)
unfolding count
count-update test elems zero i s h = absurd (omega arith)
count-update test elems (suc n) i s h = elim (Bool-cases (ltb i n)) [
  | inl below ↦ ground (arith, count-update test elems n i s)
  | inr last ↦ ground (arith, count-update_of_le test elems n i s)
]

pub count-eq-zero :
    (test : SyncLevel → Bool) (elems : ℕ → SyncLevel) (n i : ℕ)
    → count test elems n ≡ 0
    → i < n
    → test (elems i) ≡ false
unfolding count
count-eq-zero test elems zero i h lt = absurd (omega arith)
count-eq-zero test elems (suc n) i h lt = elim (Bool-cases (ltb i n)) [
  | inl below ↦ count-eq-zero test elems n i (omega arith) (ground arith)
  | inr last ↦ ground arith
]

pub count-zero :
    (test : SyncLevel → Bool) (elems : ℕ → SyncLevel) (n : ℕ)
    → ((i : ℕ) → i < n → test (elems i) ≡ false)
    → count test elems n ≡ 0
unfolding count
count-zero test elems zero h = refl
count-zero test elems (suc n) h =
    ground (arith, h n (omega arith), count-zero test elems n (λ i lt. h i (omega arith)))

pub held-eq-false : (s : SyncLevel) → is_held s ≡ false → s.latch ≡ none
held-eq-false s h = ground arith

abbrev pub NotIn : ℕ → List ℕ → Type 0
NotIn i fs = All (λ j. j ≢ i) fs

-- The free list that begins at `head` runs through the empty cells `fs` below `n`, each once.
abbrev pub IsFreeList : (ℕ → SyncLevel) → ℕ → ℕ → List ℕ → Type 0
IsFreeList elems n head [] = head ≡ ulint_undefined
IsFreeList elems n head (i ∷ fs) =
    (head ≡ i)
    × (i < n)
    × ((elems i).latch ≡ none)
    × NotIn i fs
    × IsFreeList elems n (elems i).level fs

-- The array is well formed: the cells from `n_elems` on are empty, `in_use` counts the latches held,
-- and every other cell below `n_elems` is on the free list.
pub record IsValid (a : SyncArr) : Type 0 where
  pub small : a.max_elems < ulint_undefined
  pub fits : a.n_elems ≤ a.max_elems
  pub beyond : (i : ℕ) → a.n_elems ≤ i → (a.elems i).latch ≡ none
  pub used : count is_held a.elems a.n_elems ≡ a.in_use
  pub free : List ℕ
  pub listed : IsFreeList a.elems a.n_elems a.next_free free
  pub whole : a.in_use + length free ≡ a.n_elems

pub update-IsFreeList :
    (elems : ℕ → SyncLevel) (n m i head : ℕ) (s : SyncLevel) (fs : List ℕ)
    → NotIn i fs
    → n ≤ m
    → IsFreeList elems n head fs
    → IsFreeList (update elems i s) m head fs
update-IsFreeList elems n m i head s [] h le l = l
update-IsFreeList elems n m i head s (j ∷ fs) h le l =
    let other : j ≢ i = h.0 in
    let same : update elems i s j ≡ elems j = ground arith in
    (
      l.0,
      omega (arith, l.1),
      rw same l.2,
      l.3,
      rw same (update-IsFreeList elems n m i (elems j).level s fs h.1 le l.4),
    )

pub held-NotIn :
    (elems : ℕ → SyncLevel) (n i head latch : ℕ) (fs : List ℕ)
    → (elems i).latch ≡ some latch
    → IsFreeList elems n head fs
    → NotIn i fs
held-NotIn elems n i head latch [] h l = tt
held-NotIn elems n i head latch (j ∷ fs) h l =
    ((λ e. absurd (cc (h, l.2, e))), held-NotIn elems n i (elems j).level latch fs h l.4)

abbrev pub PassesOver : (SyncLevel → Bool) → Type 0
PassesOver test = (l : ℕ) → test (record { latch = none; level = l }) ≡ false

pub test_empty :
    (test : SyncLevel → Bool) (s : SyncLevel) → PassesOver test → s.latch ≡ none → test s ≡ false
test_empty test s h e =
    subst (λ (o : Option ℕ). test (record { latch = o; level = s.level }) ≡ false) (sym e)
      (h s.level)
