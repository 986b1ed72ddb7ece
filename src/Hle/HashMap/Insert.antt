-- ===== src/Hle/HashMap/Insert.antt =====
-- HashMap::insert on a well-formed map.
use htmsql.Prelude.{
  ℕ, ◌+◌, ◌≤◌, ◌<◌, ◌≡◌, ◌≢◌, refl, sym, ap, subst, ◌∙◌, true, false, ◌||◌, inl, inr, Bool-cases,
  some, [], ◌∷◌, ◌++◌, arith, ◌==◌, length, length-append, update,
}
use htmsql.Hle.Run.{Ptr, null, ok, Returns, returns, is_held, dropped, is_held-dropped, is_item}
use htmsql.Hle.Nodes.{
  Nodes, ◌∈◌, ◌∉◌, last_of, values, among, is_in-append, first_of-append, values-append,
  among-append_one, all_distinct-append_one,
}
use htmsql.Hle.Chain.{nil, cons, append, last_of-ne, one-Disjoint}
use htmsql.Hle.Find.{find}
use htmsql.Hle.HashMap.{State, with_item, hash, in_bucket, delete_item, new_item, insert}
use htmsql.Hle.HashMap.Walk.{Item, Chain, insert_loop-walk, ∉-not_held, not-null-∈, is_item-∈}
use htmsql.Hle.HashMap.Buckets.{
  IsMap, Same, linked_behind, link_behind-ok, Same-linked_behind, relink, bucket_relinked,
  bucket_other, last_of-item, hash-lt, IsMap-Same, Changed, IsMap-Changed,
}
use htmsql.Hle.HashMap.Holds.{holds, holds-here, holds-update}

-- The map holds `d` and what it held before, and `q` is the item of `d`.
abbrev pub Holding : ℕ → ℕ → (ℕ → Nodes) → Ptr → State → Type 0
Holding size d f q g =
    (f' : ℕ → Nodes) × IsMap size g f'
    × ((w : ℕ) → holds size f' w ≡ ((d == w) || holds size f w))
    × ((j : ℕ) → length (f' j) ≤ length (f j) + 1)
    × (is_item g.live q ≡ true)
    × (g.item_data q ≡ d)

pub delete-ok :
    (s : State) (p : Ptr)
    → is_item s.live p ≡ true
    → delete_item p s ≡ ok tt (record s { live = dropped p s.live })
unfolding delete_item
delete-ok s p e = rw e

pub find-item :
    {s : State} {b : Ptr} (d : ℕ) {xs : Nodes}
    → Chain s null b xs
    → among d (values xs) ≡ true
    → (find d xs ∈ xs) × (s.item_data (find d xs) ≡ d)
unfolding find among
find-item d nil present = cc
find-item {s} d (cons {p} {v} {xs} e out c) present = elim (Bool-cases (v == d)) [
  | inl y ↦ rw y (ground arith, ground (arith, e.item_data))
  | inr n ↦
      let (i, eq) = find-item d c (ground arith) in
      let same : find d ((p, v) ∷ xs) ≡ find d xs = rw n in
      subst (λ q. (q ∈ (p, v) ∷ xs) × (s.item_data q ≡ d)) (sym same) (ground arith, eq)
]

module _ {size : ℕ} {s : State} {f : ℕ → Nodes} (d h p k : ℕ) (is : IsMap size s f) (pos : 0 < size)
    (at_h : hash size d ≡ some h) (ne : p ≢ null) (unused : is_held p s.live ≡ false)
    (fuel : length (f h) < k) where
  lt : h < size
  lt = hash-lt size d h pos at_h

  abbrev s1 : State
  s1 = with_item s p d

  unseen : (j : ℕ) → j < size → p ∉ f j
  unseen j lj = ∉-not_held p (is.chain j lj) unused

  Same-s1 : (a : Ptr) → (a == p) ≡ false → Same s s1 a
  unfolding is_item
  Same-s1 a apart = record {
    live = ground arith;
    item_data = ground arith;
    successor = ground arith;
  }

  pub is1 : IsMap size s1 f
  is1 = IsMap-Same is (λ j. refl) λ j a lj i. Same-s1 a (ground (arith, unseen j lj))

  is_item_p : is_item s1.live p ≡ true
  unfolding is_item
  is_item_p = ground arith

  abbrev xs : Nodes
  xs = f h ++ (p, d) ∷ []

  -- The value was there: the new item is given back.
  abbrev s2 : State
  s2 = record s1 { live = dropped p s1.live }

  Same-s2 : (a : Ptr) → (a == p) ≡ false → Same s1 s2 a
  unfolding is_item
  Same-s2 a apart = record {
    live = ground (arith, is_held-dropped a p s1.live);
    item_data = refl;
    successor = refl;
  }

  is2 : IsMap size s2 f
  is2 = IsMap-Same is1 (λ j. refl) λ j a lj i. Same-s2 a (ground (arith, unseen j lj))

  pub unchanged :
      among d (values (f h)) ≡ true → (w : ℕ) → holds size f w ≡ ((d == w) || holds size f w)
  unchanged present w = elim (Bool-cases (d == w)) [
    | inl y ↦
        let now : holds size f w ≡ true =
          subst (λ v. holds size f v ≡ true) (ground arith)
            (holds-here size h d f at_h ∙ present) in
        rw (y, now)
    | inr n ↦ rw n
  ]

  there : among d (values (f h)) ≡ true → Holding size d f (find d (f h)) s2
  there present =
      let (i, data_eq) = find-item d (is2.chain h lt) present in
      (f, is2, unchanged present, (λ j. omega arith), is_item-∈ _ (is2.chain h lt) i, data_eq)

  -- The value was not there: the new item is the last of the bucket.
  abbrev g : State
  g = linked_behind s1 h (last_of null (f h)) p

  p_not_last : (p == last_of null (f h)) ≡ false
  p_not_last = last_of-ne p (f h) (ground arith) (unseen h lt)

  item_p : Item g p d (last_of null (f h)) null
  item_p = record {
    live = is_item_p;
    item_data = ground arith;
    successor = ground (arith, p_not_last);
  }

  other_end : (j a : ℕ) → j < size → (j == h) ≡ false → a ∈ f j → (a == last_of null (f h)) ≡ false
  other_end j a lj other i =
      last_of-ne a (f h) (ground (arith, not-null-∈ (is.chain j lj))) (is.apart j h lj lt other a i)

  new-hashed : (v : ℕ) → among v (values xs) ≡ true → hash size v ≡ some h
  new-hashed v i =
      let among_v : ((d == v) || among v (values (f h))) ≡ true =
        sym (among-append_one v d (values (f h)))
        ∙ (subst (λ ws. among v ws ≡ true) (values-append (f h) ((p, d) ∷ [])) i) in
      elim (Bool-cases (d == v)) [
        | inl y ↦ subst (λ w. hash size w ≡ some h) (ground arith) at_h
        | inr n ↦ is.hashed h v lt (ground arith)
      ]

  changed : among d (values (f h)) ≡ false → Changed size s1 g f h xs
  changed absent = record {
    bucket =
        bucket_relinked h p (is1.chain h lt) (is1.bucket h lt)
        ∙ sym (first_of-append null (f h) ((p, d) ∷ []));
    chain =
        append (relink h p (is1.chain h lt)) (cons item_p refl nil)
          (one-Disjoint p d (f h) (unseen h lt));
    others = λ j other. bucket_other s1 h (last_of null (f h)) p j other;
    same = λ j a lj other i.
        Same-linked_behind s1 h (last_of null (f h)) p a (other_end j a lj other i);
    apart = λ j lj other a i.
        rw (is_in-append a (f h)) (ground (arith, is.apart j h lj lt other a i, unseen j lj));
    hashed = new-hashed;
    distinct =
        rw (values-append (f h))
          (all_distinct-append_one d (values (f h)) (is.distinct h lt) absent);
  }

  longer : (j : ℕ) → length (update f h xs j) ≤ length (f j) + 1
  longer j = elim (Bool-cases (h == j)) [
    | inl y ↦
        let same : f h ≡ f j = ap f (ground arith) in
        rw y (omega (arith, length-append (f h) ((p, d) ∷ []), ap length same))
    | inr n ↦ rw n (omega arith)
  ]

  pub added : among d (values (f h)) ≡ false → Holding size d f p g
  added absent = (
    update f h xs,
    IsMap-Changed h is1 (changed absent),
    holds-update size h d f at_h xs (λ b c. b || c) (λ b. refl)
        λ w. rw (values-append (f h)) (among-append_one w d (values (f h))),
    longer,
    is_item_p,
    ground arith,
  )

  -- insert of a value with a bucket ends, with the item of the value; the map stays well formed and
  -- holds the value besides what it held.
  pub insert-Holding : Returns (Holding size d f) (insert size k p d s)
  unfolding insert new_item in_bucket
  insert-Holding =
      rw (at_h, is1.bucket h lt, insert_loop-walk d h p k (is1.chain h lt) fuel)
        (elim (Bool-cases (among d (values (f h)))) [
          | inl present ↦ rw (present, delete-ok s1 p is_item_p) (returns (there present))
          | inr absent ↦
              rw
                (absent, link_behind-ok s1 h (last_of null (f h)) p (last_of-item (is1.chain h lt)))
                (returns (added absent))
        ])
