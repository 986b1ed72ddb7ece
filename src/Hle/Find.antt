-- ===== src/Hle/Find.antt =====
-- The first node with a number.
use htmsql.Prelude.{
  ℕ, ◌≡◌, refl, ◌⊎◌, true, false, inl, inr, Bool-cases, [], ◌∷◌, ◌++◌, arith, if◌then◌else◌, ◌==◌,
}
use htmsql.Hle.Run.{Ptr, null}
use htmsql.Hle.Nodes.{Nodes, values, among, erase}

-- The address of the first item with a number, or NULL.
unfoldable pub find : ℕ → Nodes → Ptr
find d [] = null
find d ((p, v) ∷ xs) = if v == d then p else find d xs

-- Where a number is found, the list is split at its first occurrence.
pub record Split (d : ℕ) (xs : Nodes) : Type 0 where
  pub front : Nodes
  pub address : Ptr
  pub back : Nodes
  pub parts : xs ≡ (front ++ (address, d) ∷ back)
  pub erased : erase d (values xs) ≡ (values (front ++ back))
  pub out_front : among d (values front) ≡ false
  pub present : among d (values xs) ≡ true
  pub found : find d xs ≡ address

pub find-cases :
    (d : ℕ) (xs : Nodes)
    → Split d xs
      ⊎ ((find d xs ≡ null) × (erase d (values xs) ≡ values xs) × (among d (values xs) ≡ false))
unfolding find erase among
find-cases d [] = inr (refl, refl, refl)
find-cases d ((p, v) ∷ xs) = elim (Bool-cases (v == d)) [
  | inl y ↦ inl (record {
    front = [];
    address = p;
    back = xs;
    parts = ground (arith, y);
    erased = rw y;
    out_front = refl;
    present = rw y;
    found = rw y;
  })
  | inr n ↦ elim (find-cases d xs) [
    | inl s ↦ inl (record {
      front = (p, v) ∷ s.front;
      address = s.address;
      back = s.back;
      parts = rw s.parts;
      erased = rw (n, s.erased);
      out_front = rw (n, s.out_front);
      present = rw (n, s.present);
      found = rw (n, s.found);
    })
    | inr (f, e, a) ↦ inr (rw (n, f), rw (n, e), rw (n, a))
  ]
]
