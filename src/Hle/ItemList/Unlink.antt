-- ===== src/Hle/ItemList/Unlink.antt =====
-- remove_from_list at an item of a list.
use htmsql.Prelude.{ℕ, ◌≡◌, refl, false, [], ◌∷◌, ◌++◌, arith, if◌then◌else◌, ◌==◌}
use htmsql.Hle.Run.{Ptr, null, Returns, returns, is_item}
use htmsql.Hle.Nodes.{Nodes, ◌∉◌, Disjoint, first_of, last_of, last_of-append}
use htmsql.Hle.ItemList.{Heap, remove_from_list}
use htmsql.Hle.Chain.{
  first_of-out, last_of-out, cons, append, take_front, take_back, take-Disjoint, last_of-∈,
}
use htmsql.Hle.ItemList.Chain.{Chain, Item, frame, not-null-∈}
use htmsql.Hle.ItemList.Links.{
  handle, IsList, linked_next, linked_prev, load-ok, link_next-ok, link_prev-ok, Same-linked_next,
  Same-linked_prev, relink_last, relink_first, last_of-item, first_of-item,
}

first_of-unlinked :
    (p v : ℕ) (ys zs : Nodes)
    → Disjoint ys ((p, v) ∷ zs)
    → (let f = first_of null (ys ++ (p, v) ∷ zs) in if p == f then first_of null zs else f)
      ≡ first_of null (ys ++ zs)
first_of-unlinked p v [] zs apart = ground arith
first_of-unlinked p v ((q, w) ∷ ys) zs apart = ground (arith, apart q)

last_of-unlinked :
    (p v : ℕ) (ys zs : Nodes)
    → p ∉ zs
    → (let l = last_of null (ys ++ (p, v) ∷ zs) in if p == l then last_of null ys else l)
      ≡ last_of null (ys ++ zs)
last_of-unlinked p v ys [] out =
    rw (last_of-append null ys ((p, v) ∷ []), last_of-append null ys []) (ground arith)
last_of-unlinked p v ys ((q, w) ∷ zs) out =
    rw (last_of-append null ys ((p, v) ∷ (q, w) ∷ zs), last_of-append null ys ((q, w) ∷ zs))
      (ground (arith, last_of-∈ p q w zs))

module _ (h : Heap) (p v : ℕ) (ys zs : Nodes) (c : Chain h null null (ys ++ (p, v) ∷ zs)) where
  abbrev b : Ptr
  b = last_of null ys

  abbrev n : Ptr
  n = first_of null zs

  abbrev h1 : Heap
  h1 = linked_prev h n b

  abbrev h2 : Heap
  h2 = linked_next h1 b n

  item : Item h p v b n
  item = elim (take_back ys ((p, v) ∷ zs) c) [ cons e out c' ↦ e ]

  front : Chain h p null ys
  front = take_front ys ((p, v) ∷ zs) c

  back : Chain h null p zs
  back = elim (take_back ys ((p, v) ∷ zs) c) [ cons e out c' ↦ c' ]

  out_back : p ∉ zs
  out_back = elim (take_back ys ((p, v) ∷ zs) c) [ cons e out c' ↦ out ]

  apart : Disjoint ys ((p, v) ∷ zs)
  apart = take-Disjoint ys ((p, v) ∷ zs) c

  apart_back : Disjoint ys zs
  apart_back a i = ground (arith, apart a i)

  out_n : n ∉ ys
  out_n = first_of-out ys zs apart_back (not-null-∈ front)

  out_b : b ∉ zs
  out_b = last_of-out ys zs apart_back (not-null-∈ back)

  front_after : Chain h1 p null ys
  front_after = frame front λ a i. Same-linked_prev h n b a (ground (arith, out_n))

  chain : Chain h2 null null (ys ++ zs)
  chain =
      append (relink_last n front_after)
        (frame (relink_first b back) λ a i. Same-linked_next h1 b n a (ground (arith, out_b)))
        apart_back

  not_null : (p == null) ≡ false
  unfolding is_item
  not_null = ground (arith, item.live)

  -- remove_from_list of an item of the list takes this item out, and gives no memory back.
  pub remove_from_list-IsList :
      Returns
        (λ l g. IsList g l (ys ++ zs) × (g.live ≡ h.live))
        (remove_from_list (handle (ys ++ (p, v) ∷ zs)) p h)
  unfolding remove_from_list
  remove_from_list-IsList =
      rw
        (
          not_null,
          load-ok Heap.prev h p item.live,
          item.prev,
          load-ok Heap.next h p item.live,
          item.next,
          link_prev-ok h n b (first_of-item zs back),
          link_next-ok h1 b n (last_of-item ys front_after),
        )
        (returns (
          record {
            fields = rw (first_of-unlinked p v ys zs apart, last_of-unlinked p v ys zs out_back);
            chain = chain;
          },
          refl,
        ))
