-- ===== src/Innodb/Levels/Free.antt =====
-- What the cells of a level array hold after the loop of `sync_thread_reset_level`.
use htmsql.Prelude.{
  ℕ, ◌+◌, ◌-◌, ◌≤◌, ◌<◌, ◌≡◌, refl, Bool, true, false, [], ◌∷◌, none, some, arith, inl, inr,
  Bool-cases, leb, ltb, ◌==◌, update, ap, ltb→lt,
}
use htmsql.Innodb.Levels.{SyncLevel, SyncArr, ulint_undefined, free_cell}
use htmsql.Innodb.Levels.Cells.{
  to_nat, count, is_held, count-update, count-zero, held-eq-false, count-eq-zero, NotIn, IsFreeList,
  IsValid, count-zero, held-eq-false, update-IsFreeList, held-NotIn, PassesOver, test_empty,
}

-- What `free_cell` does to a held cell: a well-formed array again, without that one latch.
pub record Freed (a : SyncArr) (i : ℕ) (r : SyncArr) : Type 0 where
  pub valid : IsValid r
  pub in_use : r.in_use + 1 ≡ a.in_use
  pub counts :
      (test : SyncLevel → Bool)
      → ((l : ℕ) → test (record { latch = none; level = l }) ≡ false)
      → count test r.elems r.n_elems + to_nat (test (a.elems i)) ≡ count test a.elems a.n_elems

free_cell-one :
    (a : SyncArr) (i : ℕ)
    → a.in_use ≡ 1
    → free_cell a i
      ≡ some (record {
        in_use = 0;
        n_elems = 0;
        max_elems = a.max_elems;
        next_free = ulint_undefined;
        elems = update a.elems i (record { latch = none; level = a.next_free });
      })
unfolding free_cell
free_cell-one a i one = rw one

free_cell-more :
    (a : SyncArr) (i : ℕ)
    → 1 < a.in_use
    → free_cell a i
      ≡ some (record a {
        in_use = a.in_use - 1;
        next_free = i;
        elems = update a.elems i (record { latch = none; level = a.next_free });
      })
unfolding free_cell
free_cell-more a i more = rw (leb_true, eq_false)
  where
    leb_true : leb 1 a.in_use ≡ true
    leb_true = ground arith

    eq_false : (a.in_use == 1) ≡ false
    eq_false = ground arith

abbrev wiped : SyncArr → ℕ → ℕ → SyncLevel
wiped a i = update a.elems i (record { latch = none; level = a.next_free })

module _ {a : SyncArr} {i latch : ℕ} (v : IsValid a) (h : i < a.n_elems)
    (e : (a.elems i).latch ≡ some latch) where
  count-wiped :
      (test : SyncLevel → Bool)
      → PassesOver test
      → count test (wiped a i) a.n_elems + to_nat (test (a.elems i)) ≡ count test a.elems a.n_elems
  count-wiped test p = omega (
    arith,
    count-update test a.elems a.n_elems i (record { latch = none; level = a.next_free }) h,
    ap to_nat (p a.next_free),
  )

  held_before : to_nat (is_held (a.elems i)) ≡ 1
  held_before = rw e

  held_after : count is_held (wiped a i) a.n_elems + 1 ≡ a.in_use
  held_after = omega (arith, count-wiped is_held (λ l. refl), held_before, v.used)

  wiped-beyond : (j : ℕ) → a.n_elems ≤ j → (wiped a i j).latch ≡ none
  wiped-beyond j le = ground (arith, v.beyond j)

  all_empty : a.in_use ≡ 1 → (j : ℕ) → (wiped a i j).latch ≡ none
  all_empty one j = elim (Bool-cases (ltb j a.n_elems)) [
    | inr out ↦ wiped-beyond j (ground arith)
    | inl inside ↦ held-eq-false (wiped a i j) (
        count-eq-zero is_held (wiped a i) a.n_elems j (omega (arith, held_after))
          (ltb→lt j a.n_elems inside))
  ]

  count-all_empty :
      (test : SyncLevel → Bool)
      → PassesOver test
      → a.in_use ≡ 1
      → count test (wiped a i) a.n_elems ≡ 0
  count-all_empty test p one =
      count-zero test (wiped a i) a.n_elems
        (λ j lt. test_empty test (wiped a i j) p (all_empty one j))

  -- The last latch: the array is emptied.
  Freed-last : a.in_use ≡ 1 → (r : SyncArr) × (free_cell a i ≡ some r) × Freed a i r
  Freed-last one = (
    record {
      in_use = 0;
      n_elems = 0;
      max_elems = a.max_elems;
      next_free = ulint_undefined;
      elems = wiped a i;
    },
    free_cell-one a i one,
    record {
      valid = record {
        small = v.small;
        fits = omega arith;
        beyond = λ j le. all_empty one j;
        used = unfold count in refl;
        free = [];
        listed = refl;
        whole = refl;
      };
      in_use = omega (arith, one);
      counts =
          λ test p. unfold count in omega (arith, count-wiped test p, count-all_empty test p one);
    },
  )

  -- One of several latches: its cell goes to the front of the free list.
  Freed-more : 1 < a.in_use → (r : SyncArr) × (free_cell a i ≡ some r) × Freed a i r
  Freed-more more = (
    record a { in_use = a.in_use - 1; next_free = i; elems = wiped a i },
    free_cell-more a i more,
    record {
      valid = record {
        small = v.small;
        fits = v.fits;
        beyond = wiped-beyond;
        used = omega (arith, held_after);
        free = i ∷ v.free;
        listed = (refl, h, ground arith, apart, rw here kept);
        whole = omega (arith, v.whole);
      };
      in_use = omega arith;
      counts = count-wiped;
    },
  )
    where
      apart : NotIn i v.free
      apart = held-NotIn a.elems a.n_elems i a.next_free latch v.free e v.listed

      here : (wiped a i i).level ≡ a.next_free
      here = ground arith

      kept : IsFreeList (wiped a i) a.n_elems a.next_free v.free
      kept =
          update-IsFreeList a.elems a.n_elems a.n_elems i a.next_free
            (record { latch = none; level = a.next_free }) v.free apart (omega arith) v.listed

-- Releasing a latch that the thread holds fails no assertion, and takes that one latch out of the
-- array, which stays well formed.
pub free_cell-Freed :
    (a : SyncArr) (i latch : ℕ)
    → IsValid a
    → i < a.n_elems
    → (a.elems i).latch ≡ some latch
    → (r : SyncArr) × (free_cell a i ≡ some r) × Freed a i r
free_cell-Freed a i latch v h e = elim (Bool-cases (a.in_use == 1)) [
  | inl one ↦ Freed-last v h e (ground arith)
  | inr more ↦ Freed-more v h e (ground (arith, held_after v h e))
]
