-- ===== src/Hle/ItemList/Search.antt =====
-- The loops that walk over a chain: get, contains and size.
use htmsql.Prelude.{
  ℕ, zero, suc, ◌+◌, ◌<◌, ◌≡◌, refl, ap, false, not, inl, inr, Bool-cases, arith, ◌==◌, length,
}
use htmsql.Hle.Run.{Ptr, null, ok}
use htmsql.Hle.Nodes.{Nodes, first_of, values, among}
use htmsql.Hle.Find.{find}
use htmsql.Hle.ItemList.{Heap, ItemList, get_loop, get, contains, size_loop, size}
use htmsql.Hle.Chain.{nil, cons}
use htmsql.Hle.ItemList.Chain.{Chain, not-null-∈}
use htmsql.Hle.ItemList.Links.{IsList, load-ok}

module _ {h : Heap} (d : ℕ) where
  get_loop-find :
      (k : ℕ) {b : Ptr} {xs : Nodes}
      → Chain h null b xs
      → length xs < k
      → get_loop d k (first_of null xs) h ≡ ok (find d xs) h
  unfolding get_loop find
  get_loop-find zero c fuel = absurd (omega arith)
  get_loop-find (suc k) nil fuel = refl
  get_loop-find (suc k) (cons {p} {v} {xs} e out c) fuel =
      let ne : (p == null) ≡ false = ground (arith, not-null-∈ (cons e out c)) in
      elim (Bool-cases (v == d)) [
        | inl y ↦ rw (ne, load-ok Heap.item_data h p e.live, e.item_data, y)
        | inr n ↦ rw (
          ne,
          load-ok Heap.item_data h p e.live,
          e.item_data,
          n,
          load-ok Heap.next h p e.live,
          e.next,
          get_loop-find k c (omega arith),
        )
      ]

  -- get returns the first item with the number, or NULL, and changes nothing.
  pub get-find :
      {l : ItemList} {xs : Nodes} (k : ℕ)
      → IsList h l xs
      → length xs < k
      → get k l d h ≡ ok (find d xs) h
  unfolding get
  get-find k is fuel = rw (is.fields, get_loop-find k is.chain fuel)

  find-among :
      {b : Ptr} {xs : Nodes} → Chain h null b xs → not (find d xs == null) ≡ among d (values xs)
  unfolding find among
  find-among nil = ground arith
  find-among (cons {p} {v} {xs} e out c) =
      let ne : (p == null) ≡ false = ground (arith, not-null-∈ (cons e out c)) in
      ground (arith, find-among c)

  -- contains is true exactly when the number is in the list, and changes nothing.
  pub contains-among :
      {l : ItemList} {xs : Nodes} (k : ℕ)
      → IsList h l xs
      → length xs < k
      → contains k l d h ≡ ok (among d (values xs)) h
  unfolding contains
  contains-among k is fuel = rw (get-find k is fuel, find-among is.chain)

size_loop-length :
    {h : Heap} (k n : ℕ) {b : Ptr} {xs : Nodes}
    → Chain h null b xs
    → length xs < k
    → size_loop k n (first_of null xs) h ≡ ok (n + length xs) h
unfolding size_loop
size_loop-length zero n c fuel = absurd (omega arith)
size_loop-length (suc k) n nil fuel = ground arith
size_loop-length {h} (suc k) n (cons {p} {v} {xs} e out c) fuel =
    let ne : (p == null) ≡ false = ground (arith, not-null-∈ (cons e out c)) in
    rw (ne, load-ok Heap.next h p e.live, e.next, size_loop-length k (n + 1) c (omega arith))
      (ap (λ m. ok m h) (omega arith))

-- size counts the items, and changes nothing.
pub size-length :
    {h : Heap} {l : ItemList} {xs : Nodes} (k : ℕ)
    → IsList h l xs
    → length xs < k
    → size k l h ≡ ok (length xs) h
unfolding size
size-length {h} k is fuel =
    rw (is.fields, size_loop-length k 0 is.chain fuel) (ap (λ m. ok m h) (omega arith))
