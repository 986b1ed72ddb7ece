-- ===== src/Hle/OneMap.antt =====
-- A map of two buckets that holds 5 alone.
use htmsql.Prelude.{
  ℕ, ◌≡◌, refl, subst, some, [], ◌∷◌, arith, inl, inr, Bool-cases, if◌then◌else◌, ◌==◌,
}
use htmsql.Hle.Run.{null, is_item}
use htmsql.Hle.Nodes.{Nodes, among, all_distinct}
use htmsql.Hle.Chain.{nil, cons}
use htmsql.Hle.HashMap.{State, hash}
use htmsql.Hle.HashMap.Walk.{Chain}
use htmsql.Hle.HashMap.Buckets.{IsMap}

abbrev pub one_map : State
one_map = record {
  live = 9 ∷ [];
  item_data = λ p. 5;
  successor = λ p. null;
  bucket = λ h. if h == 1 then 9 else null;
}

abbrev pub one_nodes : ℕ → Nodes
one_nodes h = if h == 1 then (9, 5) ∷ [] else []

pub hash_five : hash 2 5 ≡ some 1
unfolding hash
hash_five = refl

one_map-chain : (h : ℕ) → Chain one_map null null (one_nodes h)
unfolding is_item
one_map-chain h = elim (Bool-cases (h == 1)) [
  | inl y ↦ rw y (cons (record { live = refl; item_data = refl; successor = refl }) refl nil)
  | inr n ↦ rw n nil
]

pub one_map-IsMap : IsMap 2 one_map one_nodes
unfolding among all_distinct hash
one_map-IsMap = record {
  bucket = λ h lt. ground arith;
  chain = λ h lt. one_map-chain h;
  apart = λ i j li lj ne a i'. ground arith;
  hashed = λ h v lt i. elim (Bool-cases (h == 1)) [
    | inl y ↦
        let h_one : 1 ≡ h = ground arith in
        let v_five : 5 ≡ v = ground arith in
        subst (λ j. hash 2 v ≡ some j) h_one (subst (λ w. hash 2 w ≡ some 1) v_five hash_five)
    | inr n ↦ ground arith
  ];
  distinct = λ h lt. ground arith;
}
