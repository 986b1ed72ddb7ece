-- ===== src/Hle/HashMap/Remove.antt =====
-- HashMap::remove on a well-formed map.
use htmsql.Prelude.{
  ℕ, ◌≤◌, ◌<◌, ◌≡◌, refl, sym, ap, subst, ◌∙◌, Bool, true, false, not, ◌&&◌, inl, inr, Bool-cases,
  some, ◌∷◌, ◌++◌, arith, ◌==◌, length, update,
}
use htmsql.Hle.Run.{Ptr, null, Returns, Returns-mono, returns, dropped, is_held-dropped, is_item}
use htmsql.Hle.Nodes.{
  Nodes, ◌∈◌, ◌∉◌, Disjoint, first_of, last_of, values, among, erase, all_distinct, is_in-append,
  first_of-append, among-erase, length-erase, length-values, all_distinct-erase,
}
use htmsql.Hle.Chain.{cons, append, take_front, take_back, take-Disjoint, last_of-ne, last_of-out}
use htmsql.Hle.Find.{Split, find-cases}
use htmsql.Hle.HashMap.{State, hash, in_bucket, remove}
use htmsql.Hle.HashMap.Walk.{
  Item, Chain, rebase, remove_loop-missing, remove_loop-found, remove_end, not-null-∈,
}
use htmsql.Hle.HashMap.Buckets.{
  IsMap, Same, frame, linked_behind, link_behind-ok, relink, bucket_relinked, bucket_other,
  last_of-item, hash-lt, Changed, IsMap-Changed,
}
use htmsql.Hle.HashMap.Holds.{holds, holds-here, holds-update}
use htmsql.Hle.HashMap.Insert.{delete-ok}

-- The map holds what it held without `d`, and the result says whether it held `d`.
abbrev pub Lacking : ℕ → ℕ → (ℕ → Nodes) → Bool → State → Type 0
Lacking size d f b g =
    (f' : ℕ → Nodes) × IsMap size g f'
    × ((w : ℕ) → holds size f' w ≡ (not (d == w) && holds size f w))
    × ((j : ℕ) → length (f' j) ≤ length (f j))
    × (b ≡ holds size f d)

-- The item at `p` is taken out of bucket `h`, and given back.
module _ {size : ℕ} {s : State} {f : ℕ → Nodes} (h p d : ℕ) (ys zs : Nodes) (is : IsMap size s f)
    (lt : h < size) (parts : f h ≡ (ys ++ (p, d) ∷ zs)) where
  whole : Chain s null null (ys ++ (p, d) ∷ zs)
  whole = subst (Chain s null null) parts (is.chain h lt)

  front : Chain s p null ys
  front = take_front ys ((p, d) ∷ zs) whole

  back : Chain s null p zs
  back = elim (take_back ys ((p, d) ∷ zs) whole) [ cons e out c ↦ c ]

  item : Item s p d (last_of null ys) (first_of null zs)
  item = elim (take_back ys ((p, d) ∷ zs) whole) [ cons e out c ↦ e ]

  out_back : p ∉ zs
  out_back = elim (take_back ys ((p, d) ∷ zs) whole) [ cons e out c ↦ out ]

  apart : Disjoint ys ((p, d) ∷ zs)
  apart = take-Disjoint ys ((p, d) ∷ zs) whole

  apart_back : Disjoint ys zs
  apart_back a i = ground (arith, apart a i)

  abbrev prev : Ptr
  prev = last_of null ys

  abbrev s1 : State
  s1 = linked_behind s h prev (first_of null zs)

  abbrev s2 : State
  s2 = record s1 { live = dropped p s1.live }

  Same-s2 : (a : Ptr) → (a == prev) ≡ false → (a == p) ≡ false → Same s s2 a
  unfolding is_item
  Same-s2 a not_prev ne = record {
    live = ground (arith, is_held-dropped a p s1.live);
    item_data = refl;
    successor = ground arith;
  }

  Same-without : (a : Ptr) → (a == p) ≡ false → Same s1 s2 a
  unfolding is_item
  Same-without a ne = record {
    live = ground (arith, is_held-dropped a p s1.live);
    item_data = refl;
    successor = refl;
  }

  chain : Chain s2 null null (ys ++ zs)
  chain =
      append
        (frame (relink h (first_of null zs) front) λ a i. Same-without a (ground (arith, apart p)))
        (frame (rebase prev back) λ a i.
          Same-s2 a (ground (arith, last_of-out ys zs apart_back (not-null-∈ back)))
            (ground (arith, out_back)))
        apart_back

  bucket_eq : s.bucket h ≡ first_of p ys
  bucket_eq = is.bucket h lt ∙ ap (first_of null) parts ∙ first_of-append null ys ((p, d) ∷ zs)

  -- Another bucket's items are neither `p` nor before it.
  in_other : (j a : ℕ) → j < size → (j == h) ≡ false → a ∈ f j → a ∉ (ys ++ (p, d) ∷ zs)
  in_other j a lj other i = subst (λ xs. a ∉ xs) parts (is.apart j h lj lt other a i)

  module _ (erased : erase d (values (f h)) ≡ values (ys ++ zs)) where
    changed : Changed size s s2 f h (ys ++ zs)
    changed = record {
      bucket =
          bucket_relinked h (first_of null zs) front bucket_eq ∙ sym (first_of-append null ys zs);
      chain = chain;
      others = λ j other. bucket_other s h prev (first_of null zs) j other;
      same = λ j a lj other i.
          Same-s2 a
            (last_of-ne a ys (ground (arith, not-null-∈ (is.chain j lj)))
              (ground (arith, in_other j a lj other i, is_in-append a ys ((p, d) ∷ zs))))
            (ground (arith, in_other j a lj other i, is_in-append a ys ((p, d) ∷ zs)));
      apart = λ j lj other a i.
          ground
            (arith, in_other j a lj other i, is_in-append a ys ((p, d) ∷ zs), is_in-append a ys zs);
      hashed = λ v i.
          is.hashed h v lt (
            ground (arith, among-erase v d (values (f h)) (is.distinct h lt), ap (among v) erased));
      distinct =
          subst (λ ws. all_distinct ws ≡ true) erased
            (all_distinct-erase d (values (f h)) (is.distinct h lt));
    }

    shorter : (j : ℕ) → length (update f h (ys ++ zs) j) ≤ length (f j)
    shorter j = elim (Bool-cases (h == j)) [
      | inl y ↦
          let same : f h ≡ f j = ap f (ground arith) in
          rw y (
            omega (
              arith,
              length-erase d (values (f h)),
              length-values (f h),
              length-values (ys ++ zs),
              ap length erased,
              ap length same,
            ))
      | inr n ↦ rw n (omega arith)
    ]

    taken_out : hash size d ≡ some h → among d (values (f h)) ≡ true → Lacking size d f true s2
    taken_out at_h present = (
      update f h (ys ++ zs),
      IsMap-Changed h is changed,
      holds-update size h d f at_h (ys ++ zs) (λ b c. not b && c) (λ b. refl)
          λ w. ap (among w) (sym erased) ∙ among-erase w d (values (f h)) (is.distinct h lt),
      shorter,
      sym (holds-here size h d f at_h ∙ present),
    )

    unlink : Returns (λ b g. (b ≡ true) × (g ≡ s2)) (remove_end h prev p (first_of null zs) s)
    unlink =
        rw
          (
            link_behind-ok s h prev (first_of null zs) (last_of-item front),
            delete-ok s1 p item.live,
          )
          (returns (refl, refl))

module _ {size : ℕ} {s : State} {f : ℕ → Nodes} (d h k : ℕ) (is : IsMap size s f) (pos : 0 < size)
    (at_h : hash size d ≡ some h) (fuel : length (f h) < k) where
  h_lt : h < size
  h_lt = hash-lt size d h pos at_h

  removed-found : Split d (f h) → Returns (Lacking size d f) (remove size k d s)
  unfolding remove in_bucket
  removed-found x =
      let c = whole h x.address d x.front x.back is h_lt x.parts in
      rw
        (
          at_h,
          is.bucket h h_lt,
          ap (first_of null) x.parts,
          remove_loop-found d h k x.address x.front x.back c x.out_front
              (subst (λ xs. length xs < k) x.parts fuel),
        )
        (Returns-mono (unlink h x.address d x.front x.back is h_lt x.parts x.erased)
          λ b g (eq, eq').
            rw (eq, eq')
              (taken_out h x.address d x.front x.back is h_lt x.parts x.erased at_h x.present))

  removed-missing : among d (values (f h)) ≡ false → Returns (Lacking size d f) (remove size k d s)
  unfolding remove in_bucket
  removed-missing absent =
      rw (at_h, is.bucket h h_lt, remove_loop-missing d h k (is.chain h h_lt) absent fuel)
        (returns (f, is, unchanged, (λ j. omega arith), sym (holds-here size h d f at_h ∙ absent)))
    where
      unchanged : (w : ℕ) → holds size f w ≡ (not (d == w) && holds size f w)
      unchanged w = elim (Bool-cases (d == w)) [
        | inl y ↦
            let now : holds size f w ≡ false =
              subst (λ v. holds size f v ≡ false) (ground arith)
                (holds-here size h d f at_h ∙ absent) in
            rw (y, now)
        | inr n ↦ rw n
      ]

  -- remove of a value with a bucket ends; the map stays well formed and holds what it held without
  -- the value, and the result is 1 exactly if the map held the value.
  pub remove-Lacking : Returns (Lacking size d f) (remove size k d s)
  remove-Lacking = elim (find-cases d (f h)) [
    | inl x ↦ removed-found x
    | inr (_, _, absent) ↦ removed-missing absent
  ]
