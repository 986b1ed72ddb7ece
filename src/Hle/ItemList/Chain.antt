-- ===== src/Hle/ItemList/Chain.antt =====
-- Chains of linked items, and how they change with the heap.
use htmsql.Prelude.{ℕ, ◌≡◌, refl, true, false, arith, ◌==◌}
use htmsql.Hle.Run.{Ptr, null, is_held, is_item}
use htmsql.Hle.Nodes.{Nodes, ◌∈◌, ◌∉◌, first_of, last_of}
use htmsql.Hle.Chain.{Linked, nil, cons, map_nodes, at_nodes, turn_last}
use htmsql.Hle.ItemList.{Heap, with_prev, with_next, with_item}

-- The item at `p` has number `v`, and its links are `b` and `n`.
pub record Item (h : Heap) (p : Ptr) (v : ℕ) (b n : Ptr) : Type 0 where
  pub live : is_item h.live p ≡ true
  pub item_data : h.item_data p ≡ v
  pub prev : h.prev p ≡ b
  pub next : h.next p ≡ n

-- The distinct items `xs` are linked in both directions, between `b` and `stop`.
abbrev pub Chain : Heap → Ptr → Ptr → Nodes → Type 0
Chain h = Linked (Item h)

-- Two heaps agree at `a`.
pub record Same (h g : Heap) (a : Ptr) : Type 0 where
  pub live : is_item g.live a ≡ is_item h.live a
  pub item_data : g.item_data a ≡ h.item_data a
  pub prev : g.prev a ≡ h.prev a
  pub next : g.next a ≡ h.next a

pub Item-Same : {h g : Heap} {p b n : Ptr} {v : ℕ} → Item h p v b n → Same h g p → Item g p v b n
Item-Same e s = record {
  live = rw (s.live, e.live);
  item_data = rw (s.item_data, e.item_data);
  prev = rw (s.prev, e.prev);
  next = rw (s.next, e.next);
}

-- A field is written away from `a`.
pub Same-with_prev : (h : Heap) (p q a : Ptr) → (a == p) ≡ false → Same h (with_prev h p q) a
Same-with_prev h p q a ne = record {
  live = refl;
  item_data = refl;
  prev = ground arith;
  next = refl;
}

pub Same-with_next : (h : Heap) (p q a : Ptr) → (a == p) ≡ false → Same h (with_next h p q) a
Same-with_next h p q a ne = record {
  live = refl;
  item_data = refl;
  prev = refl;
  next = ground arith;
}

pub Same-with_item :
    (h : Heap) (p : Ptr) (d : ℕ) (b n a : Ptr) → (a == p) ≡ false → Same h (with_item h p d b n) a
unfolding is_item
Same-with_item h p d b n a ne = record {
  live = ground arith;
  item_data = ground arith;
  prev = ground arith;
  next = ground arith;
}

module _ {h : Heap} {stop : Ptr} where
  pub frame :
      {g : Heap} {b : Ptr} {xs : Nodes}
      → Chain h stop b xs
      → ((a : Ptr) → a ∈ xs → Same h g a)
      → Chain g stop b xs
  frame c same = map_nodes c λ p v b n i e. Item-Same e (same p i)

  pub is_item-∈ :
      (a : Ptr) {b : Ptr} {xs : Nodes} → Chain h stop b xs → a ∈ xs → is_item h.live a ≡ true
  is_item-∈ a c i = at_nodes {Q = λ p. is_item h.live p ≡ true} a (λ p v b n e. e.live) c i

  -- Where nothing is held, nothing is in the chain.
  pub ∉-not_held :
      (a : Ptr) {b : Ptr} {xs : Nodes} → Chain h stop b xs → is_held a h.live ≡ false → a ∉ xs
  unfolding is_item
  ∉-not_held a {xs} c free = ground (arith, is_item-∈ a c)

  pub not-null-∈ : {b : Ptr} {xs : Nodes} → Chain h stop b xs → null ∉ xs
  unfolding is_item
  not-null-∈ {xs} c = ground (arith, is_item-∈ null c)

-- The next field of the last item is turned to `n`.
pub relink_next :
    {h : Heap} {stop b : Ptr} (n : Ptr) {xs : Nodes}
    → Chain h stop b xs
    → Chain (with_next h (last_of b xs) n) n b xs
relink_next {h} n c =
    turn_last n c (λ p v b m ne e. Item-Same e (Same-with_next h _ n p ne))
      λ v b m e. record {
        live = e.live;
        item_data = e.item_data;
        prev = e.prev;
        next = ground arith;
      }

-- The prev field of the first item is turned to `b'`.
pub relink_prev :
    {h : Heap} {stop b : Ptr} (b' : Ptr) {xs : Nodes}
    → Chain h stop b xs
    → Chain (with_prev h (first_of stop xs) b') stop b' xs
relink_prev b' nil = nil
relink_prev {h} b' (cons {p} e out c) =
    cons (record { live = e.live; item_data = e.item_data; prev = ground arith; next = e.next }) out
      (frame c λ a i. Same-with_prev h p b' a (ground arith))
