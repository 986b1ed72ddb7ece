-- ===== src/Hle/HashMap/Holds.antt =====
-- The set of values of a hash map.
use htmsql.Prelude.{
  ℕ, ◌≡◌, ap, Bool, false, inl, inr, Bool-cases, Option-cases, Option, none, some, arith, ◌==◌,
  update,
}
use htmsql.Hle.Nodes.{Nodes, values, among}
use htmsql.Hle.HashMap.{hash}

abbrev pub holds_in : Option ℕ → (ℕ → Nodes) → ℕ → Bool
holds_in none f w = false
holds_in (some h) f w = among w (values (f h))

-- Whether the value is in the bucket of its hash.
unfoldable pub holds : ℕ → (ℕ → Nodes) → ℕ → Bool
holds size f w = holds_in (hash size w) f w

module _ (size h d : ℕ) (f : ℕ → Nodes) (here : hash size d ≡ some h) where
  pub holds-here : holds size f d ≡ among d (values (f h))
  unfolding holds
  holds-here = rw here

  -- The bucket of `d` is changed, as to `d` alone.
  pub holds-update :
      (xs : Nodes) (change : Bool → Bool → Bool)
      → ((b : Bool) → change false b ≡ b)
      → ((w : ℕ) → among w (values xs) ≡ change (d == w) (among w (values (f h))))
      → (w : ℕ) → holds size (update f h xs) w ≡ change (d == w) (holds size f w)
  unfolding holds
  holds-update xs change id eq w = elim (Option-cases (hash size w)) [
    | inl none' ↦ let ne : (d == w) ≡ false = ground arith in rw (none', ne, id)
    | inr (j, at_j) ↦ elim (Bool-cases (h == j)) [
      | inl same ↦
          rw (at_j, same, eq w) (ap (λ i. change (d == w) (among w (values (f i)))) (ground arith))
      | inr other ↦ let ne : (d == w) ≡ false = ground arith in rw (at_j, other, ne, id)
    ]
  ]
