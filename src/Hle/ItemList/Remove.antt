-- ===== src/Hle/ItemList/Remove.antt =====
-- The two functions remove on a list.
use htmsql.Prelude.{
  ℕ, ◌<◌, ◌≡◌, refl, sym, ap, subst, ◌∙◌, true, false, inl, inr, ◌∷◌, ◌++◌, arith, if◌then◌else◌,
  ◌==◌, length,
}
use htmsql.Hle.Run.{
  Ptr, null, ok, Returns, Returns-bind, returns, dropped, is_held-dropped, is_item,
}
use htmsql.Hle.Nodes.{Nodes, ◌∉◌, values, erase, is_in-append}
use htmsql.Hle.ItemList.{
  Heap, ItemList, delete_list_item, remove_from_list, find_and_remove_from_list, remove,
  remove_item,
}
use htmsql.Hle.Chain.{take-Disjoint, take_back, cons}
use htmsql.Hle.ItemList.Chain.{Chain, Same, frame, is_item-∈}
use htmsql.Hle.ItemList.Links.{handle, IsList}
use htmsql.Hle.ItemList.Unlink.{remove_from_list-IsList}
use htmsql.Hle.ItemList.Search.{get-find}
use htmsql.Hle.Find.{find, Split, find-cases}

abbrev pub without : Heap → Ptr → Heap
without h p = record h { live = dropped p h.live }

pub delete-ok :
    (h : Heap) (p : Ptr) → is_item h.live p ≡ true → delete_list_item p h ≡ ok tt (without h p)
unfolding delete_list_item is_item
delete-ok h p e = ground arith

pub Same-without : (h : Heap) (p a : Ptr) → (a == p) ≡ false → Same h (without h p) a
unfolding is_item
Same-without h p a ne = record {
  live = ground (arith, is_held-dropped a p h.live);
  item_data = refl;
  prev = refl;
  next = refl;
}

pub frame-without :
    {h : Heap} {stop b : Ptr} (p : Ptr) {xs : Nodes}
    → Chain h stop b xs
    → p ∉ xs
    → Chain (without h p) stop b xs
frame-without {h} p c out = frame c λ a i. Same-without h p a (ground arith)

-- The outcome of remove: the list has the items `xs`, and the item at `p` is given back.
pub record Removed (h : Heap) (p : Ptr) (xs : Nodes) (l : ItemList) (g : Heap) : Type 0 where
  pub is_list : IsList g l xs
  pub live : g.live ≡ (if p == null then h.live else dropped p h.live)

module _ {h : Heap} (p v : ℕ) (ys zs : Nodes) (c : Chain h null null (ys ++ (p, v) ∷ zs)) where
  held : is_item h.live p ≡ true
  held = is_item-∈ p c (ground (arith, is_in-append p ys ((p, v) ∷ zs)))

  not_null : (p == null) ≡ false
  unfolding is_item
  not_null = ground (arith, held)

  out : p ∉ (ys ++ zs)
  out =
      let apart : p ∉ zs = elim (take_back ys ((p, v) ∷ zs) c) [ cons e o c' ↦ o ] in
      ground (arith, is_in-append p ys zs, take-Disjoint ys ((p, v) ∷ zs) c p)

  delete_last :
      (l : ItemList) (g : Heap)
      → IsList g l (ys ++ zs)
      → g.live ≡ h.live
      → Returns (λ _ f. Removed h p (ys ++ zs) l f) (delete_list_item p g)
  delete_last l g is same = rw (delete-ok g p (rw same held)) (
      returns (record {
        is_list = record { fields = is.fields; chain = frame-without p is.chain out };
        live = rw (not_null, same);
      }))

  -- remove of an item takes it alone out of the list and gives its memory back.
  pub remove_item-Removed :
      Returns (Removed h p (ys ++ zs)) (remove_item (handle (ys ++ (p, v) ∷ zs)) p h)
  unfolding remove_item
  remove_item-Removed = rw not_null (
      Returns-bind (remove_from_list-IsList h p v ys zs c)
        λ l g (is, same). Returns-bind (delete_last l g is same) λ _ f done. returns done)

module _ {h : Heap} {l : ItemList} {xs : Nodes} (k d : ℕ) (is : IsList h l xs)
    (fuel : length xs < k) where
  -- The outcome of the remove of a number.
  abbrev pub Erased : ItemList → Heap → Type 0
  Erased l' g = (ys : Nodes) × Removed h (find d xs) ys l' g × (values ys ≡ erase d (values xs))

  -- The outcome of find_and_remove_from_list where the number is in the list.
  abbrev TakenOut : Split d xs → Ptr × ItemList → Heap → Type 0
  TakenOut s (item, l') g = (item ≡ s.address) × IsList g l' (s.front ++ s.back) × (g.live ≡ h.live)

  chain_of : (s : Split d xs) → Chain h null null (s.front ++ (s.address, d) ∷ s.back)
  chain_of s = subst (Chain h null null) s.parts is.chain

  find_and_remove_from_list-TakenOut :
      (s : Split d xs) → Returns (TakenOut s) (find_and_remove_from_list k l d h)
  unfolding find_and_remove_from_list
  find_and_remove_from_list-TakenOut s =
      rw (get-find d k is fuel, s.found, is.fields ∙ ap handle s.parts)
        (Returns-bind (remove_from_list-IsList h s.address d s.front s.back (chain_of s))
          λ l' g (is', same). returns (refl, is', same))

  remove-found : Split d xs → Returns Erased (remove k l d h)
  unfolding remove
  remove-found s =
      Returns-bind (find_and_remove_from_list-TakenOut s) λ (item, l') g (eq, is', same). rw eq (
        Returns-bind (delete_last s.address d s.front s.back (chain_of s) l' g is' same)
          λ _ f done. returns (s.front ++ s.back, rw s.found done, sym s.erased))

  remove-missing :
      find d xs ≡ null → erase d (values xs) ≡ values xs → Returns Erased (remove k l d h)
  unfolding remove find_and_remove_from_list remove_from_list delete_list_item
  remove-missing none same =
      rw (get-find d k is fuel, none)
        (returns (xs, record { is_list = is; live = rw none }, sym same))

  -- remove of a number takes the first item with it out of the list and gives its memory back; where
  -- there is none, it changes nothing.
  pub remove-Erased : Returns Erased (remove k l d h)
  remove-Erased = elim (find-cases d xs) [
    | inl s ↦ remove-found s
    | inr (none, same, _) ↦ remove-missing none same
  ]
