-- ===== src/Hle/MapTests.antt =====
-- Runs of the hash map, and the theorems at them.
use htmsql.Prelude.{◌-◌, ◌^◌, ◌≡◌, refl, true, false, none, some, List, [], ◌∷◌, arith, All}
use htmsql.Hle.Run.{Returns}
use htmsql.Hle.Above.{above, above-unused}
use htmsql.Hle.HashMap.{hash, new_map}
use htmsql.Hle.HashMap.Refinement.{
  Call, inserts, removes, asks_for, value_of, specified, specified_all, called_all, Agrees,
  IsHashed, map_calls-Agrees, new_map-StandsFor,
}

-- The last value is the int -4.
abbrev map_calls : List Call
map_calls =
    inserts 5
    ∷ inserts 7
    ∷ inserts 5
    ∷ removes 5
    ∷ asks_for 7
    ∷ removes 5
    ∷ inserts (2 ^ 32 - 4)
    ∷ []

map_calls-IsHashed : All (λ c. IsHashed 2 (value_of c)) map_calls
unfolding hash
map_calls-IsHashed =
    ((1, refl), ((1, refl), ((1, refl), ((1, refl), ((1, refl), ((1, refl), ((0, refl), tt)))))))

map_calls-Agrees_example :
    Returns
      (Agrees 2 7 (specified_all map_calls (λ w. false)))
      (called_all above 2 8 map_calls (new_map []))
map_calls-Agrees_example =
    map_calls-Agrees above above-unused 2 8 (omega arith) map_calls 0 (λ w. false)
      map_calls-IsHashed (new_map-StandsFor 2 []) (omega arith)

specified_answers :
    (specified_all map_calls (λ w. false)).0
    ≡ (none ∷ none ∷ none ∷ some true ∷ some true ∷ some false ∷ none ∷ [])
unfolding specified_all specified
specified_answers = refl
