-- ===== src/Innodb/Levels/Reserve.antt =====
-- What the cells of a level array hold after `levels_ok` in `sync_thread_add_level`.
use htmsql.Prelude.{
  ℕ, ◌+◌, ◌≤◌, ◌<◌, ◌≡◌, refl, subst, ◌∙◌, Bool, false, List, [], ◌∷◌, none, some, arith, inl, inr,
  length, update, ap, ◌⊎◌,
}
use native.Mathlib.Numerals.{add-one}
use htmsql.Innodb.Levels.{SyncLevel, SyncArr, ulint_undefined, take_cell, reserve}
use htmsql.Innodb.Levels.Cells.{
  to_nat, count, is_held, count-update, NotIn, IsFreeList, IsValid, update-IsFreeList, PassesOver,
  test_empty,
}

-- The latch that `reserve` enters.
abbrev pub entry : ℕ → ℕ → SyncLevel
entry latch level = record { latch = some latch; level = level }

-- What `reserve` does: a well-formed array again, with one more latch, under every count of latches
-- that passes over empty cells.
pub record Reserved (a : SyncArr) (latch level : ℕ) (r : SyncArr) : Type 0 where
  pub valid : IsValid r
  pub in_use : r.in_use ≡ a.in_use + 1
  pub counts :
      (test : SyncLevel → Bool)
      → ((l : ℕ) → test (record { latch = none; level = l }) ≡ false)
      → count test r.elems r.n_elems
        ≡ count test a.elems a.n_elems + to_nat (test (entry latch level))

-- Cell `i` is empty and is not among the free cells `fs` that stay behind.
record Room (a b : SyncArr) (i : ℕ) (fs : List ℕ) : Type 0 where
  same : b.elems ≡ a.elems
  used : b.in_use ≡ a.in_use
  bound : b.max_elems ≡ a.max_elems
  grows : a.n_elems ≤ b.n_elems
  fits : b.n_elems ≤ a.max_elems
  inside : i < b.n_elems
  empty : (a.elems i).latch ≡ none
  counts :
      (test : SyncLevel → Bool)
      → PassesOver test
      → count test a.elems b.n_elems ≡ count test a.elems a.n_elems
  listed : IsFreeList a.elems a.n_elems b.next_free fs
  apart : NotIn i fs
  whole : a.in_use + 1 + length fs ≡ b.n_elems

module _ {a b : SyncArr} {i : ℕ} {fs : List ℕ} (v : IsValid a) (m : Room a b i fs)
    (latch level : ℕ) where
  abbrev taken : SyncArr
  taken = record b { in_use = b.in_use + 1; elems = update b.elems i (entry latch level) }

  count-taken :
      (test : SyncLevel → Bool)
      → PassesOver test
      → count test (update a.elems i (entry latch level)) b.n_elems
        ≡ count test a.elems a.n_elems + to_nat (test (entry latch level))
  count-taken test h =
      let none_there : test (a.elems i) ≡ false = test_empty test (a.elems i) h m.empty in
      let moved = count-update test a.elems b.n_elems i (entry latch level) m.inside in
      let dropped : to_nat (test (a.elems i)) ≡ 0 = rw none_there in
      omega (arith, moved, dropped, m.counts test h)

  taken-IsValid : IsValid taken
  taken-IsValid = rw m.same (record {
    small = rw m.bound v.small;
    fits = omega (arith, m.fits, m.bound);
    beyond = λ j h. ground (arith, m.inside, m.grows, v.beyond j);
    used = count-taken is_held (λ l. refl) ∙ omega (arith, v.used, m.used);
    free = fs;
    listed =
        update-IsFreeList a.elems a.n_elems b.n_elems i b.next_free (entry latch level) fs m.apart
          m.grows m.listed;
    whole = omega (arith, m.whole, m.used);
  })

  taken_lem :
      b.n_elems < ulint_undefined
      → (take_cell i b latch level ≡ some taken) × Reserved a latch level taken
  unfolding take_cell
  taken_lem h = (
    rw m.same (ground (arith, m.inside, m.empty)),
    record {
      valid = taken-IsValid;
      in_use = omega (arith, m.used);
      counts = λ test p. rw m.same (count-taken test p);
    },
  )

count-add_one :
    (test : SyncLevel → Bool) (elems : ℕ → SyncLevel) (n : ℕ)
    → count test elems (n + 1) ≡ count test elems n + to_nat (test (elems n))
unfolding count
count-add_one test elems n = rw add-one

reserve-new :
    (a : SyncArr) (latch level : ℕ)
    → a.next_free ≡ ulint_undefined
    → a.n_elems < a.max_elems
    → reserve a latch level ≡ take_cell a.n_elems (record a { n_elems = a.n_elems + 1 }) latch level
unfolding reserve
reserve-new a latch level e h = ground arith

reserve-free :
    (a : SyncArr) (latch level : ℕ)
    → a.next_free < ulint_undefined
    → reserve a latch level
      ≡ take_cell a.next_free (record a { next_free = (a.elems a.next_free).level }) latch level
unfolding reserve
reserve-free a latch level h = ground arith

-- With the free list empty, the cell behind the last one is taken.
reserve_new :
    (a : SyncArr) (latch level : ℕ)
    → (v : IsValid a) → v.free ≡ []
    → a.in_use < a.max_elems
    → (r : SyncArr) × (reserve a latch level ≡ some r) × Reserved a latch level r
reserve_new a latch level v e h =
    (taken v room latch level, reserve-new a latch level head_undefined below ∙ t.0, t.1)
  where
    head_undefined : a.next_free ≡ ulint_undefined
    head_undefined = subst (IsFreeList a.elems a.n_elems a.next_free) e v.listed

    below : a.n_elems < a.max_elems
    below = omega (arith, v.whole, ap length e)

    room : Room a (record a { n_elems = a.n_elems + 1 }) a.n_elems []
    room = record {
      same = refl;
      used = refl;
      bound = refl;
      grows = omega arith;
      fits = omega (arith, below);
      inside = omega arith;
      empty = v.beyond a.n_elems (omega arith);
      counts = λ test p. omega (
        arith,
        count-add_one test a.elems a.n_elems,
        ap to_nat (test_empty test (a.elems a.n_elems) p (v.beyond a.n_elems (omega arith))),
      );
      listed = head_undefined;
      apart = tt;
      whole = omega (arith, v.whole, ap length e);
    }

    t :
        (take_cell a.n_elems (record a { n_elems = a.n_elems + 1 }) latch level
          ≡ some (taken v room latch level))
        × Reserved a latch level (taken v room latch level)
    t = taken_lem v room latch level (omega (arith, v.small, below))

-- The first cell of the free list is taken.
reserve_free :
    (a : SyncArr) (latch level i : ℕ) (fs : List ℕ)
    → (v : IsValid a) → v.free ≡ i ∷ fs
    → (r : SyncArr) × (reserve a latch level ≡ some r) × Reserved a latch level r
reserve_free a latch level i fs v e =
    (taken v room latch level, reserve-free a latch level below ∙ t.0, t.1)
  where
    head : IsFreeList a.elems a.n_elems a.next_free (i ∷ fs)
    head = subst (IsFreeList a.elems a.n_elems a.next_free) e v.listed

    below : a.next_free < ulint_undefined
    below = omega (arith, head.0, head.1, v.fits, v.small)

    room : Room a (record a { next_free = (a.elems a.next_free).level }) a.next_free fs
    room = record {
      same = refl;
      used = refl;
      bound = refl;
      grows = omega arith;
      fits = v.fits;
      inside = omega (arith, head.0, head.1);
      empty = rw head.0 head.2;
      counts = λ test p. refl;
      listed = rw head.0 head.4;
      apart = rw head.0 head.3;
      whole = omega (arith, v.whole, ap length e);
    }

    t :
        (take_cell a.next_free (record a { next_free = (a.elems a.next_free).level }) latch level
          ≡ some (taken v room latch level))
        × Reserved a latch level (taken v room latch level)
    t = taken_lem v room latch level (omega (arith, v.small, v.fits))

List-cases : (l : List ℕ) → (l ≡ []) ⊎ ((x : ℕ) × (xs : List ℕ) × (l ≡ x ∷ xs))
List-cases [] = inl refl
List-cases (x ∷ xs) = inr (x, xs, refl)

-- In a well-formed array with room for one more latch no assertion of `sync_thread_add_level` behind
-- `levels_ok` fails, and the latch is entered: the array stays well formed and holds what it held,
-- and the new latch.
pub reserve-Reserved :
    (a : SyncArr) (latch level : ℕ)
    → IsValid a
    → a.in_use < a.max_elems
    → (r : SyncArr) × (reserve a latch level ≡ some r) × Reserved a latch level r
reserve-Reserved a latch level v h = elim (List-cases v.free) [
  | inl e ↦ reserve_new a latch level v e h
  | inr (i, fs, e) ↦ reserve_free a latch level i fs v e
]
