-- ===== src/Hle/Above.antt =====
-- A function that finds an unused address.
use htmsql.Prelude.{◌+◌, ◌<◌, ◌≡◌, ◌≢◌, true, false, List, [], ◌∷◌, arith}
use htmsql.Hle.Run.{Ptr, null, is_held}

-- An allocator: one more than the sum of the addresses in use.
abbrev pub above : List Ptr → Ptr
above [] = 1
above (p ∷ ps) = p + above ps

above-pos : (ps : List Ptr) → 0 < above ps
above-pos [] = omega arith
above-pos (p ∷ ps) = omega (arith, above-pos ps)

is_held-lt : (q : Ptr) (ps : List Ptr) → is_held q ps ≡ true → q < above ps
is_held-lt q [] i = cc
is_held-lt q (p ∷ ps) i = ground (arith, is_held-lt q ps, above-pos ps)

pub above-unused : (ps : List Ptr) → (above ps ≢ null) × (is_held (above ps) ps ≡ false)
above-unused ps = (ground (arith, above-pos ps), ground (arith, is_held-lt (above ps) ps))
