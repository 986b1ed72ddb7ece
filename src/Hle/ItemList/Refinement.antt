-- ===== src/Hle/ItemList/Refinement.antt =====
-- The list and sequences of numbers, over sequences of calls.
use htmsql.Prelude.{
  ℕ, ◌+◌, ◌≤◌, ◌<◌, ◌≡◌, ◌≢◌, refl, sym, ap, Bool, false, List, [], ◌∷◌, ◌++◌, arith, length,
  length-append,
}
use htmsql.Hle.Run.{Ptr, null, ◌>>=◌, pure, Returns, Returns-bind, returns, is_held}
use htmsql.Hle.Nodes.{Nodes, values, among, erase, values-append, length-values, length-erase}
use htmsql.Hle.ItemList.{Heap, ItemList, Action, insert, remove, contains, size}
use htmsql.Hle.ItemList.Links.{IsList}
use htmsql.Hle.ItemList.Insert.{insert-Added}
use htmsql.Hle.ItemList.Search.{contains-among, size-length}
use htmsql.Hle.ItemList.Remove.{remove-Erased}

-- A call of a public function.
pub data Call : Type 0 where
  inserts removes asks_for : ℕ → Call
  asks_size : Call

-- What it returns; the address that insert returns is no part of the abstract view.
pub data Answer : Type 0 where
  done : Answer
  yes_no : Bool → Answer
  count : ℕ → Answer

-- The specification: a sequence of numbers.
unfoldable pub specified : Call → List ℕ → Answer × List ℕ
specified (inserts d) ws = (done, ws ++ d ∷ [])
specified (removes d) ws = (done, erase d ws)
specified (asks_for d) ws = (yes_no (among d ws), ws)
specified asks_size ws = (count (length ws), ws)

unfoldable pub specified_all : List Call → List ℕ → List Answer × List ℕ
specified_all [] ws = ([], ws)
specified_all (c ∷ cs) ws =
    let (a, ws') = specified c ws in let (rest, end) = specified_all cs ws' in (a ∷ rest, end)

-- The implementation; `new` is the function from the addresses in use to a new one.
module _ (new : List Ptr → Ptr) (fuel : ℕ) where
  unfoldable pub called : Call → ItemList → Action (Answer × ItemList)
  called (inserts d) l = λ h. (do (_, l') ← insert (new h.live) l d; pure (done, l')) h
  called (removes d) l = do l' ← remove fuel l d; pure (done, l')
  called (asks_for d) l = do b ← contains fuel l d; pure (yes_no b, l)
  called asks_size l = do n ← size fuel l; pure (count n, l)

  unfoldable pub called_all : List Call → ItemList → Action (List Answer × ItemList)
  called_all [] l = pure ([], l)
  called_all (c ∷ cs) l = do
    (a, l') ← called c l
    (rest, l'') ← called_all cs l'
    pure (a ∷ rest, l'')

-- The list `l` stands for the numbers `ws`.
abbrev pub StandsFor : Heap → ItemList → List ℕ → Type 0
StandsFor h l ws = (xs : Nodes) × IsList h l xs × (values xs ≡ ws)

-- The answer `a` and the new list are those of the specification.
abbrev pub Agrees : {A : Type 0} → A × List ℕ → A × ItemList → Heap → Type 0
Agrees (a, ws) (b, l) h = (b ≡ a) × StandsFor h l ws

length-specified : (c : Call) (ws : List ℕ) → length ((specified c ws).1) ≤ length ws + 1
unfolding specified
length-specified (inserts d) ws = omega (arith, length-append ws (d ∷ []))
length-specified (removes d) ws = omega (arith, length-erase d ws)
length-specified (asks_for d) ws = omega arith
length-specified asks_size ws = omega arith

length-of : (xs : Nodes) {ws : List ℕ} → values xs ≡ ws → length xs ≡ length ws
length-of xs eq = rw (sym eq, length-values)

shorter :
    (xs : Nodes) {ws : List ℕ} {fuel : ℕ} → values xs ≡ ws → length ws < fuel → length xs < fuel
shorter xs eq enough = omega (arith, length-of xs eq)

module _ (new : List Ptr → Ptr)
    (new-unused : (live : List Ptr) → (new live ≢ null) × (is_held (new live) live ≡ false))
    (fuel : ℕ) where
  called-Agrees :
      (c : Call) {h : Heap} {l : ItemList} (ws : List ℕ)
      → StandsFor h l ws
      → length ws < fuel
      → Returns (Agrees (specified c ws)) (called new fuel c l h)
  unfolding specified called
  called-Agrees (inserts d) {h} ws (xs, is, eq) enough =
      Returns-bind (insert-Added (new h.live) d is (new-unused h.live).0 (new-unused h.live).1)
        λ (item, l') g (_, is', _).
          returns (refl, (xs ++ (new h.live, d) ∷ [], is', rw (values-append, eq)))
  called-Agrees (removes d) ws (xs, is, eq) enough =
      Returns-bind (remove-Erased fuel d is (shorter xs eq enough))
        λ l' g (ys, removed, eq'). returns (refl, (ys, removed.is_list, rw (eq', eq)))
  called-Agrees (asks_for d) ws (xs, is, eq) enough =
      rw (contains-among d fuel is (shorter xs eq enough)) (returns (rw eq, (xs, is, eq)))
  called-Agrees asks_size ws (xs, is, eq) enough =
      rw (size-length fuel is (shorter xs eq enough))
        (returns (ap count (length-of xs eq), (xs, is, eq)))

  -- Refinement: from a list that stands for some numbers, with a `new` that finds an unused address
  -- and with fuel above the numbers and the calls together, every sequence of calls ends without a
  -- fault, returns what the specification returns, and leaves a list that stands for what the
  -- specification leaves.
  pub called_all-Agrees :
      (cs : List Call) {h : Heap} {l : ItemList} (ws : List ℕ)
      → StandsFor h l ws
      → length ws + length cs < fuel
      → Returns (Agrees (specified_all cs ws)) (called_all new fuel cs l h)
  unfolding specified_all called_all
  called_all-Agrees [] ws s enough = returns (refl, s)
  called_all-Agrees (c ∷ cs) ws s enough =
      Returns-bind (called-Agrees c ws s (omega arith)) λ (a, l') g (eq, s').
        Returns-bind (called_all-Agrees cs _ s' (omega (arith, length-specified c ws)))
          λ (rest, l'') f (eq', s''). returns (rw (eq, eq'), s'')
