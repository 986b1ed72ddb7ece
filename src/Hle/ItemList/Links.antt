-- ===== src/Hle/ItemList/Links.antt =====
-- The heaps that link_next and link_prev leave, and what they do to the ends of a chain.
use htmsql.Prelude.{
  ◌≡◌, refl, true, false, inl, inr, Bool-cases, [], ◌∷◌, arith, if◌then◌else◌, ◌==◌, update,
}
use htmsql.Hle.Run.{Ptr, null, ok, is_item}
use htmsql.Hle.Nodes.{Nodes, first_of, last_of}
use htmsql.Hle.ItemList.{Heap, ItemList, with_prev, load, set_prev, set_next, link_next, link_prev}
use htmsql.Hle.Chain.{nil, last_of-∈}
use htmsql.Hle.ItemList.Chain.{Chain, Same, frame, relink_next, relink_prev, not-null-∈, is_item-∈}

-- The fields of a list of the items `xs`.
abbrev pub handle : Nodes → ItemList
handle xs = record { first = first_of null xs; last = last_of null xs }

-- The list `l` consists of the items `xs`.
pub record IsList (h : Heap) (l : ItemList) (xs : Nodes) : Type 0 where
  pub fields : l ≡ handle xs
  pub chain : Chain h null null xs

abbrev pub linked_next : Heap → Ptr → Ptr → Heap
linked_next h p q = record h { next = if p == null then h.next else update h.next p q }

abbrev pub linked_prev : Heap → Ptr → Ptr → Heap
linked_prev h p q = record h { prev = if p == null then h.prev else update h.prev p q }

pub load-ok :
    {A : Type 0} (field : Heap → Ptr → A) (h : Heap) (p : Ptr)
    → is_item h.live p ≡ true
    → load field p h ≡ ok (field h p) h
unfolding load
load-ok field h p e = rw e

pub set_prev-ok :
    (h : Heap) (p q : Ptr) → is_item h.live p ≡ true → set_prev p q h ≡ ok tt (with_prev h p q)
unfolding set_prev
set_prev-ok h p q e = rw e

pub link_next-ok :
    (h : Heap) (p q : Ptr)
    → ((p == null) ≡ false → is_item h.live p ≡ true)
    → link_next p q h ≡ ok tt (linked_next h p q)
unfolding link_next set_next
link_next-ok h p q e = elim (Bool-cases (p == null)) [ inl i ↦ rw i | inr o ↦ rw (o, e o) ]

pub link_prev-ok :
    (h : Heap) (p q : Ptr)
    → ((p == null) ≡ false → is_item h.live p ≡ true)
    → link_prev p q h ≡ ok tt (linked_prev h p q)
unfolding link_prev set_prev
link_prev-ok h p q e = elim (Bool-cases (p == null)) [ inl i ↦ rw i | inr o ↦ rw (o, e o) ]

pub Same-linked_next : (h : Heap) (p q a : Ptr) → (a == p) ≡ false → Same h (linked_next h p q) a
Same-linked_next h p q a ne = record {
  live = refl;
  item_data = refl;
  prev = refl;
  next = ground arith;
}

pub Same-linked_prev : (h : Heap) (p q a : Ptr) → (a == p) ≡ false → Same h (linked_prev h p q) a
Same-linked_prev h p q a ne = record {
  live = refl;
  item_data = refl;
  prev = ground arith;
  next = refl;
}

module _ {h : Heap} {stop b : Ptr} where
  pub last_of-item :
      (xs : Nodes)
      → Chain h stop b xs
      → (last_of null xs == null) ≡ false
      → is_item h.live (last_of null xs) ≡ true
  last_of-item [] c e = cc
  last_of-item ((p, v) ∷ xs) c e = is_item-∈ _ c (last_of-∈ null p v xs)

  pub first_of-item :
      (xs : Nodes)
      → Chain h stop b xs
      → (first_of null xs == null) ≡ false
      → is_item h.live (first_of null xs) ≡ true
  first_of-item [] c e = cc
  first_of-item ((p, v) ∷ xs) c e = is_item-∈ p c (ground arith)

pub relink_last :
    {h : Heap} {stop : Ptr} (n : Ptr) {xs : Nodes}
    → Chain h stop null xs
    → Chain (linked_next h (last_of null xs) n) n null xs
relink_last n nil = nil
relink_last {h} {stop} n {xs = (p, v) ∷ xs} c =
    let held = last_of-∈ null p v xs in
    let ne : (last_of p xs == null) ≡ false = ground (arith, not-null-∈ c) in
    frame (relink_next n c)
      λ a i. record { live = refl; item_data = refl; prev = refl; next = rw ne }

pub relink_first :
    {h : Heap} {b : Ptr} (b' : Ptr) {xs : Nodes}
    → Chain h null b xs
    → Chain (linked_prev h (first_of null xs) b') null b' xs
relink_first b' nil = nil
relink_first {h} b' {xs = (p, v) ∷ xs} c =
    let ne : (p == null) ≡ false = ground (arith, not-null-∈ c) in
    frame (relink_prev b' c)
      λ a i. record { live = refl; item_data = refl; prev = rw ne; next = refl }
