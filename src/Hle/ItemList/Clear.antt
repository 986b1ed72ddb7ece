-- ===== src/Hle/ItemList/Clear.antt =====
-- delete_all and the destructor.
use htmsql.Prelude.{ℕ, zero, suc, ◌<◌, ◌≡◌, refl, false, ◌&&◌, not, [], arith, ◌==◌, length}
use htmsql.Hle.Run.{
  Ptr, null, Returns, Returns-bind, Returns-mono, returns, is_held, is_held-dropped,
}
use htmsql.Hle.Nodes.{Nodes, is_in, first_of}
use htmsql.Hle.ItemList.{Heap, ItemList, new_list, delete_all, destroy}
use htmsql.Hle.Chain.{nil, cons}
use htmsql.Hle.ItemList.Chain.{Chain, not-null-∈}
use htmsql.Hle.ItemList.Links.{IsList, load-ok}
use htmsql.Hle.ItemList.Remove.{delete-ok, frame-without}

-- Exactly the memory of `xs` is given back.
abbrev pub Freed : Heap → Nodes → Heap → Type 0
Freed h xs g = (a : Ptr) → is_held a g.live ≡ (not (is_in a xs) && is_held a h.live)

delete_all-Freed :
    (k : ℕ) {h : Heap} {b : Ptr} {xs : Nodes}
    → Chain h null b xs
    → length xs < k
    → Returns (λ _ g. Freed h xs g) (delete_all k (first_of null xs) h)
unfolding delete_all
delete_all-Freed zero c fuel = absurd (omega arith)
delete_all-Freed (suc k) nil fuel = returns λ a. refl
delete_all-Freed (suc k) {h} (cons {p} {v} {xs} e out c) fuel =
    let ne : (p == null) ≡ false = ground (arith, not-null-∈ (cons e out c)) in
    rw (ne, load-ok Heap.next h p e.live, e.next, delete-ok h p e.live)
      (Returns-mono (delete_all-Freed k (frame-without p c out) (omega arith))
        λ _ g freed a. ground (arith, freed a, is_held-dropped a p h.live))

-- The destructor ends, gives back the memory of all items of the list and no other, and leaves the
-- list empty.
pub destroy-Freed :
    {h : Heap} {l : ItemList} {xs : Nodes} (k : ℕ)
    → IsList h l xs
    → length xs < k
    → Returns (λ l' g. IsList g l' [] × Freed h xs g) (destroy k l h)
unfolding destroy new_list
destroy-Freed k is fuel = rw is.fields (
    Returns-bind (delete_all-Freed k is.chain fuel)
      λ _ g freed. returns (record { fields = refl; chain = nil }, freed))
