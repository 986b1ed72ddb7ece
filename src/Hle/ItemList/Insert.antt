-- ===== src/Hle/ItemList/Insert.antt =====
-- insert_tail and insert on a list.
use htmsql.Prelude.{ℕ, ◌≡◌, ◌≢◌, refl, false, [], ◌∷◌, ◌++◌, arith, if◌then◌else◌, ◌==◌}
use htmsql.Hle.Run.{Ptr, null, Returns, Returns-bind, returns, is_held, is_item}
use htmsql.Hle.Nodes.{Nodes, ◌∉◌, first_of, last_of, first_of-append, last_of-append}
use htmsql.Hle.ItemList.{
  Heap, ItemList, with_prev, create_list_item, insert, with_item, insert_tail,
}
use htmsql.Hle.Chain.{one-Disjoint, last_of-ne, nil, cons, append}
use htmsql.Hle.ItemList.Chain.{
  Chain, Item, Item-Same, Same-with_prev, Same-with_item, ∉-not_held, frame, not-null-∈,
}
use htmsql.Hle.ItemList.Links.{
  handle, IsList, linked_next, set_prev-ok, link_next-ok, Same-linked_next, relink_last,
  last_of-item,
}

last_of-append_one : (p : Ptr) (d : ℕ) (xs : Nodes) → last_of null (xs ++ (p, d) ∷ []) ≡ p
last_of-append_one p d xs = last_of-append null xs ((p, d) ∷ [])

first_of-or_new :
    (h : Heap) (p : Ptr) (xs : Nodes)
    → Chain h null null xs
    → (if first_of null xs == null then p else first_of null xs) ≡ first_of p xs
first_of-or_new h p [] c = refl
first_of-or_new h p ((q, w) ∷ xs) c = ground (arith, not-null-∈ c)

-- The outcome of insert_tail.
pub record Inserted (h : Heap) (p : Ptr) (d : ℕ) (xs : Nodes) (l : ItemList) (g : Heap)
    : Type 0 where
  pub is_list : IsList g l (xs ++ (p, d) ∷ [])
  pub same_live : g.live ≡ h.live

module _ {h : Heap} {p b : Ptr} {d : ℕ} (xs : Nodes) (c : Chain h null null xs)
    (e : Item h p d b null) (out : p ∉ xs) where
  abbrev before : Heap
  before = with_prev h p (last_of null xs)

  chain_before : Chain before null null xs
  chain_before = frame c λ a i. Same-with_prev h p _ a (ground arith)

  not_null : (p == null) ≡ false
  unfolding is_item
  not_null = ground (arith, e.live)

  item_after : Item (linked_next before (last_of null xs) p) p d (last_of null xs) null
  item_after =
      Item-Same {h = before}
        (record { live = e.live; item_data = e.item_data; prev = ground arith; next = e.next })
        (Same-linked_next before _ p p (last_of-ne p xs not_null out))

  insert_tail-Inserted : Returns (Inserted h p d xs) (insert_tail (handle xs) p h)
  unfolding insert_tail
  insert_tail-Inserted =
      rw
        (
          set_prev-ok h p (last_of null xs) e.live,
          link_next-ok before (last_of null xs) p (last_of-item xs chain_before),
        )
        (returns (record {
          is_list = record {
            fields = rw (first_of-or_new h p xs c, first_of-append, last_of-append_one);
            chain =
                append (relink_last p chain_before) (cons item_after refl nil)
                  (one-Disjoint p d xs out);
          };
          same_live = refl;
        }))

item_new : (h : Heap) (p d : ℕ) → p ≢ null → Item (with_item h p d null null) p d null null
unfolding is_item
item_new h p d ne = record {
  live = ground arith;
  item_data = ground arith;
  prev = ground arith;
  next = ground arith;
}

-- The outcome of insert.
abbrev pub Added : Heap → Ptr → ℕ → Nodes → Ptr × ItemList → Heap → Type 0
Added h p d xs (item, l) g = (item ≡ p) × IsList g l (xs ++ (p, d) ∷ []) × (g.live ≡ p ∷ h.live)

-- insert of a number returns a new item and appends it to the list, at an address that was not in use,
-- and takes no other memory.
pub insert-Added :
    {h : Heap} {l : ItemList} {xs : Nodes} (p d : ℕ)
    → IsList h l xs
    → p ≢ null
    → is_held p h.live ≡ false
    → Returns (Added h p d xs) (insert p l d h)
unfolding insert create_list_item
insert-Added {h} {xs} p d is ne free =
    let out = ∉-not_held p is.chain free in
    rw is.fields (
      Returns-bind
        (insert_tail-Inserted xs
          (frame is.chain λ a i. Same-with_item h p d null null a (ground arith))
          (item_new h p d ne) out)
        λ l g done. returns (refl, done.is_list, done.same_live))
