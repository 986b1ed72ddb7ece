-- ===== src/Hle/HashMap/Clear.antt =====
-- The destructor of the hash map.
use htmsql.Prelude.{
  ℕ, zero, suc, ◌+◌, ◌≤◌, ◌<◌, ◌≡◌, refl, Bool, false, not, ◌&&◌, ◌||◌, List, arith, ◌==◌, length,
  update,
}
use htmsql.Hle.Run.{
  Ptr, null, Returns, Returns-bind, Returns-mono, returns, is_held, dropped, is_held-dropped,
  is_item,
}
use htmsql.Hle.Nodes.{Nodes, is_in, Disjoint, first_of}
use htmsql.Hle.Chain.{nil, cons}
use htmsql.Hle.HashMap.{State, delete_loop, set_bucket, delete_buckets, destroy_map}
use htmsql.Hle.HashMap.Walk.{Chain, load-ok, not_null}
use htmsql.Hle.HashMap.Buckets.{IsMap, Same, frame}
use htmsql.Hle.HashMap.Insert.{delete-ok}

-- The addresses in use are those before without those of the nodes.
abbrev pub Without : Nodes → List Ptr → List Ptr → Type 0
Without xs before behind = (a : Ptr) → is_held a behind ≡ (not (is_in a xs) && is_held a before)

Same-live :
    (s : State) (live : List Ptr) (bucket : ℕ → Ptr) (a : Ptr)
    → is_held a live ≡ is_held a s.live
    → Same s (record s { live = live; bucket = bucket }) a
unfolding is_item
Same-live s live bucket a eq = record { live = rw eq; item_data = refl; successor = refl }

-- Only the addresses in use are changed.
abbrev Cleared : Nodes → State → State → Type 0
Cleared xs s g = (live : List Ptr) × (g ≡ record s { live = live }) × Without xs s.live live

delete_loop-Cleared :
    (k : ℕ) {s : State} {b : Ptr} {xs : Nodes}
    → Chain s null b xs
    → length xs < k
    → Returns (λ _ g. Cleared xs s g) (delete_loop k (first_of null xs) s)
unfolding delete_loop
delete_loop-Cleared zero c fuel = absurd (omega arith)
delete_loop-Cleared (suc k) {s} nil fuel = returns (s.live, refl, λ a. refl)
delete_loop-Cleared (suc k) {s} (cons {p} {v} {xs} e out c) fuel =
    let rest = frame c λ a i.
      Same-live s (dropped p s.live) s.bucket a (ground (arith, is_held-dropped a p s.live)) in
    rw (not_null e, load-ok State.successor s p e.live, e.successor, delete-ok s p e.live)
      (Returns-mono (delete_loop-Cleared k rest (omega arith)) λ _ g (live, eq, without).
        (live, eq, λ a. ground (arith, without a, is_held-dropped a p s.live)))

-- The nodes of `n` buckets from bucket `h` on.
unfoldable pub in_buckets : (ℕ → Nodes) → (n h : ℕ) → Ptr → Bool
in_buckets f zero h a = false
in_buckets f (suc n) h a = is_in a (f h) || in_buckets f n (h + 1) a

-- The buckets from `h` on are well formed.
record IsRest (f : ℕ → Nodes) (n h : ℕ) (s : State) : Type 0 where
  bucket : (j : ℕ) → h ≤ j → j < h + n → s.bucket j ≡ first_of null (f j)
  chain : (j : ℕ) → h ≤ j → j < h + n → Chain s null null (f j)
  apart : (i j : ℕ) → h ≤ i → i < j → j < h + n → Disjoint (f i) (f j)

module _ {f : ℕ → Nodes} (k : ℕ) where
  delete_buckets-Freed :
      (n h : ℕ) {s : State}
      → IsRest f n h s
      → ((j : ℕ) → h ≤ j → j < h + n → length (f j) < k)
      → Returns
          (λ _ g. (a : Ptr) → is_held a g.live ≡ (not (in_buckets f n h a) && is_held a s.live))
          (delete_buckets k n h s)
  unfolding delete_buckets in_buckets set_bucket
  delete_buckets-Freed zero h is fuel = returns λ a. refl
  delete_buckets-Freed (suc n) h {s} is fuel = rw (is.bucket h (omega arith) (omega arith)) (
      Returns-bind
        (delete_loop-Cleared k (is.chain h (omega arith) (omega arith))
          (fuel h (omega arith) (omega arith)))
        λ _ g (live, eq, without). rw eq (
          Returns-mono
            (delete_buckets-Freed n (h + 1) (rest live without)
              (λ j le lt. fuel j (omega arith) (omega arith)))
            λ _ g' freed a. ground (arith, freed a, without a)))
    where
      rest :
          (live : List Ptr)
          → Without (f h) s.live live
          → IsRest f n (h + 1) (record s { live = live; bucket = update s.bucket h null })
      rest live without = record {
        bucket = λ j le lt.
            let ne : (h == j) ≡ false = ground arith in
            rw (ne, is.bucket j (omega arith) (omega arith));
        chain = λ j le lt. frame (is.chain j (omega arith) (omega arith)) λ a i.
            Same-live s live _ a
              (ground (arith, without a, is.apart h j (omega arith) (omega arith) (omega arith) a));
        apart = λ i j le lt small. is.apart i j (omega arith) lt (omega arith);
      }

-- The destructor ends and gives back the memory of all items of the map and no other.
pub destroy_map-Freed :
    {size : ℕ} {s : State} {f : ℕ → Nodes} (k : ℕ)
    → IsMap size s f
    → ((j : ℕ) → j < size → length (f j) < k)
    → Returns
        (λ _ g. (a : Ptr) → is_held a g.live ≡ (not (in_buckets f size 0 a) && is_held a s.live))
        (destroy_map size k s)
unfolding destroy_map
destroy_map-Freed {size} k is fuel =
    delete_buckets-Freed k size 0
      (record {
        bucket = λ j le lt. is.bucket j (omega arith);
        chain = λ j le lt. is.chain j (omega arith);
        apart = λ i j le lt small. is.apart i j (omega arith) (omega arith) (ground arith);
      })
      λ j le lt. fuel j (omega arith)
