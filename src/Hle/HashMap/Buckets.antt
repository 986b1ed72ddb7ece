-- ===== src/Hle/HashMap/Buckets.antt =====
-- Well-formed hash maps, and a change of one bucket.
use htmsql.Prelude.{
  ℕ, ◌<◌, ◌≡◌, refl, sym, subst, true, false, inl, inr, Bool-cases, some, arith, if◌then◌else◌,
  ◌==◌, update,
}
use native.Mathlib.Nat.{mod-lt}
use htmsql.Hle.Run.{Ptr, null, ok, is_item}
use htmsql.Hle.Nodes.{Nodes, ◌∈◌, Disjoint, first_of, last_of, values, among, all_distinct}
use htmsql.Hle.Chain.{nil, cons, map_nodes, last_of-∈, turn_last}
use htmsql.Hle.HashMap.{State, hash, set_successor, link_behind}
use htmsql.Hle.HashMap.Walk.{Item, Chain, not-null-∈, is_item-∈}

-- `f h` are the items of bucket `h`: buckets share no item, every value is in the bucket of its hash,
-- and no value occurs twice.
pub record IsMap (size : ℕ) (s : State) (f : ℕ → Nodes) : Type 0 where
  pub bucket : (h : ℕ) → h < size → s.bucket h ≡ first_of null (f h)
  pub chain : (h : ℕ) → h < size → Chain s null null (f h)
  pub apart : (i j : ℕ) → i < size → j < size → (i == j) ≡ false → Disjoint (f i) (f j)
  pub hashed : (h v : ℕ) → h < size → among v (values (f h)) ≡ true → hash size v ≡ some h
  pub distinct : (h : ℕ) → h < size → all_distinct (values (f h)) ≡ true

-- Two states agree at `a`.
pub record Same (s g : State) (a : Ptr) : Type 0 where
  pub live : is_item g.live a ≡ is_item s.live a
  pub item_data : g.item_data a ≡ s.item_data a
  pub successor : g.successor a ≡ s.successor a

Item-Same : {s g : State} {p v b n : Ptr} → Item s p v b n → Same s g p → Item g p v b n
Item-Same e s = record {
  live = rw (s.live, e.live);
  item_data = rw (s.item_data, e.item_data);
  successor = rw (s.successor, e.successor);
}

pub frame :
    {s g : State} {stop b : Ptr} {xs : Nodes}
    → Chain s stop b xs
    → ((a : Ptr) → a ∈ xs → Same s g a)
    → Chain g stop b xs
frame c same = map_nodes c λ p v b n i e. Item-Same e (same p i)

-- The state that link_behind leaves.
abbrev pub linked_behind : State → ℕ → (prev item : Ptr) → State
linked_behind s h prev item = record s {
  bucket = if prev == null then update s.bucket h item else s.bucket;
  successor = if prev == null then s.successor else update s.successor prev item;
}

pub link_behind-ok :
    (s : State) (h : ℕ) (prev item : Ptr)
    → ((prev == null) ≡ false → is_item s.live prev ≡ true)
    → link_behind h prev item s ≡ ok tt (linked_behind s h prev item)
unfolding link_behind set_successor
link_behind-ok s h prev item e = elim (Bool-cases (prev == null)) [
  | inl i ↦ rw i
  | inr o ↦ rw (o, e o)
]

pub Same-linked_behind :
    (s : State) (h : ℕ) (p q a : Ptr) → (a == p) ≡ false → Same s (linked_behind s h p q) a
Same-linked_behind s h p q a ne = record { live = refl; item_data = refl; successor = ground arith }

-- The last of `xs`, or the bucket, is turned to `n`.
module _ {s : State} {stop : Ptr} (h : ℕ) (n : Ptr) where
  pub relink :
      {xs : Nodes} → Chain s stop null xs → Chain (linked_behind s h (last_of null xs) n) n null xs
  relink nil = nil
  relink (cons {p} {v} {xs} e out c) =
      let ne : (last_of p xs == null) ≡ false =
        ground (arith, last_of-∈ null p v xs, not-null-∈ (cons e out c)) in
      turn_last n (cons e out c)
        (λ a w b m apart e'. Item-Same e' (Same-linked_behind s h _ n a apart))
        λ w b m e'. record { live = e'.live; item_data = e'.item_data; successor = ground arith }

  pub bucket_relinked :
      {xs : Nodes}
      → Chain s stop null xs
      → s.bucket h ≡ first_of stop xs
      → (linked_behind s h (last_of null xs) n).bucket h ≡ first_of n xs
  bucket_relinked nil eq = ground arith
  bucket_relinked (cons {p} {v} {xs} e out c) eq =
      let ne : (last_of p xs == null) ≡ false =
        ground (arith, last_of-∈ null p v xs, not-null-∈ (cons e out c)) in
      rw (ne, eq)

pub bucket_other :
    (s : State) (h : ℕ) (p q : Ptr) (j : ℕ)
    → (j == h) ≡ false
    → (linked_behind s h p q).bucket j ≡ s.bucket j
bucket_other s h p q j ne = ground arith

-- A nonempty chain ends in an item.
pub last_of-item :
    {s : State} {stop : Ptr} {xs : Nodes}
    → Chain s stop null xs
    → (last_of null xs == null) ≡ false
    → is_item s.live (last_of null xs) ≡ true
last_of-item nil ne = cc
last_of-item (cons {p} {v} {xs} e out c) ne = is_item-∈ _ (cons e out c) (last_of-∈ null p v xs)

pub hash-lt : (size v h : ℕ) → 0 < size → hash size v ≡ some h → h < size
unfolding hash
hash-lt size v h pos eq = ground (arith, mod-lt v pos)

module _ {size : ℕ} {s g : State} {f : ℕ → Nodes} (is : IsMap size s f) where
  -- The items and the buckets are kept.
  pub IsMap-Same :
      ((h : ℕ) → g.bucket h ≡ s.bucket h)
      → ((h a : ℕ) → h < size → a ∈ f h → Same s g a)
      → IsMap size g f
  IsMap-Same buckets same = record {
    bucket = λ h lt. rw (buckets h) (is.bucket h lt);
    chain = λ h lt. frame (is.chain h lt) λ a. same h a lt;
    apart = is.apart;
    hashed = is.hashed;
    distinct = is.distinct;
  }

-- Bucket `h` gets the items `xs`, and the other buckets are kept.
pub record Changed (size : ℕ) (s g : State) (f : ℕ → Nodes) (h : ℕ) (xs : Nodes) : Type 0 where
  pub bucket : g.bucket h ≡ first_of null xs
  pub chain : Chain g null null xs
  pub others : (j : ℕ) → (j == h) ≡ false → g.bucket j ≡ s.bucket j
  pub same : (j a : ℕ) → j < size → (j == h) ≡ false → a ∈ f j → Same s g a
  pub apart : (j : ℕ) → j < size → (j == h) ≡ false → Disjoint (f j) xs
  pub hashed : (v : ℕ) → among v (values xs) ≡ true → hash size v ≡ some h
  pub distinct : all_distinct (values xs) ≡ true

module _ {size : ℕ} {s g : State} {f : ℕ → Nodes} (h : ℕ) {xs : Nodes} (is : IsMap size s f)
    (c : Changed size s g f h xs) where
  at_h : (j : ℕ) → (h == j) ≡ true → update f h xs j ≡ xs
  at_h j eq = rw eq

  at_other : (j : ℕ) → (h == j) ≡ false → update f h xs j ≡ f j
  at_other j ne = rw ne

  -- What holds of the new bucket and of the kept ones holds of all.
  by_bucket :
      (P : ℕ → Nodes → Type 0)
      → P h xs
      → ((j : ℕ) → j < size → (j == h) ≡ false → P j (f j))
      → (j : ℕ) → j < size
      → P j (update f h xs j)
  by_bucket P new old j lt = elim (Bool-cases (h == j)) [
    | inl eq ↦ subst (λ ys. P j ys) (sym (at_h j eq)) (subst (λ i. P i xs) (ground arith) new)
    | inr ne ↦ subst (λ ys. P j ys) (sym (at_other j ne)) (old j lt (ground arith))
  ]

  new-apart :
      (i j : ℕ)
      → i < size
      → j < size
      → (i == j) ≡ false
      → Disjoint (update f h xs i) (update f h xs j)
  new-apart i j li lj ne a = elim (Bool-cases (h == i)) [
    | inl eq ↦ rw (eq, at_other j (ground arith)) (ground (arith, c.apart j lj (ground arith) a))
    | inr out ↦ elim (Bool-cases (h == j)) [
      | inl eq ↦ rw (out, eq) (c.apart i li (ground arith) a)
      | inr out' ↦ rw (out, out') (is.apart i j li lj ne a)
    ]
  ]

  pub IsMap-Changed : IsMap size g (update f h xs)
  IsMap-Changed = record {
    bucket =
        by_bucket (λ j ys. g.bucket j ≡ first_of null ys) c.bucket
          λ j lt ne. rw (c.others j ne) (is.bucket j lt);
    chain =
        by_bucket (λ j ys. Chain g null null ys) c.chain
          λ j lt ne. frame (is.chain j lt) λ a. c.same j a lt ne;
    apart = new-apart;
    hashed = λ j v lt.
        by_bucket (λ j ys. among v (values ys) ≡ true → hash size v ≡ some j) (c.hashed v)
          (λ j lt ne. is.hashed j v lt) j lt;
    distinct =
        by_bucket (λ j ys. all_distinct (values ys) ≡ true) c.distinct λ j lt ne. is.distinct j lt;
  }
