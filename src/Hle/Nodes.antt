-- ===== src/Hle/Nodes.antt =====
-- What a chain of nodes stands for: the address and the number of each, in order.
use htmsql.Prelude.{
  ℕ, ◌≤◌, ◌≡◌, refl, Bool, true, false, not, ◌&&◌, ◌||◌, List, [], ◌∷◌, ◌++◌, arith, if◌then◌else◌,
  ◌==◌, length,
}
use htmsql.Hle.Run.{Ptr}

abbrev pub Nodes : Type 0
Nodes = List (Ptr × ℕ)

-- The address of the first node, and of the last.
abbrev pub first_of : Ptr → Nodes → Ptr
first_of d [] = d
first_of d ((p, _) ∷ xs) = p

abbrev pub last_of : Ptr → Nodes → Ptr
last_of d [] = d
last_of d ((p, _) ∷ xs) = last_of p xs

-- Whether there is a node at `p`, and the two outcomes.
abbrev pub is_in : Ptr → Nodes → Bool
is_in p [] = false
is_in p ((q, _) ∷ nodes) = (p == q) || is_in p nodes

infix 40 ◌∉◌
abbrev pub ◌∉◌ : Ptr → Nodes → Type 0
p ∉ nodes = is_in p nodes ≡ false

-- The numbers alone.
abbrev pub values : Nodes → List ℕ
values [] = []
values ((_, v) ∷ xs) = v ∷ values xs

unfoldable pub among : ℕ → List ℕ → Bool
among v [] = false
among v (w ∷ ws) = (w == v) || among v ws

infix 40 ◌∈◌
abbrev pub ◌∈◌ : Ptr → Nodes → Type 0
p ∈ nodes = is_in p nodes ≡ true

-- Without the first occurrence of a number.
unfoldable pub erase : ℕ → List ℕ → List ℕ
erase v [] = []
erase v (w ∷ ws) = if w == v then ws else w ∷ erase v ws

pub first_of-append :
    (d : Ptr) (xs ys : Nodes) → first_of d (xs ++ ys) ≡ first_of (first_of d ys) xs
first_of-append d [] ys = refl
first_of-append d (x ∷ xs) ys = refl

pub last_of-append : (d : Ptr) (xs ys : Nodes) → last_of d (xs ++ ys) ≡ last_of (last_of d xs) ys
last_of-append d [] ys = refl
last_of-append d ((p, v) ∷ xs) ys = last_of-append p xs ys

-- No address is in both.
abbrev pub Disjoint : Nodes → Nodes → Type 0
Disjoint front back = (p : Ptr) → p ∈ front → p ∉ back

pub is_in-append :
    (p : Ptr) (front back : Nodes) → is_in p (front ++ back) ≡ (is_in p front || is_in p back)
is_in-append p [] back = refl
is_in-append p ((q, v) ∷ front) back = ground (arith, is_in-append p front back)

pub values-append : (xs ys : Nodes) → values (xs ++ ys) ≡ (values xs ++ values ys)
values-append [] ys = refl
values-append (x ∷ xs) ys = rw (values-append xs ys)

pub length-values : (xs : Nodes) → length (values xs) ≡ length xs
length-values [] = refl
length-values (x ∷ xs) = rw (length-values xs)

pub length-erase : (v : ℕ) (ws : List ℕ) → length (erase v ws) ≤ length ws
unfolding erase
length-erase v [] = ground arith
length-erase v (w ∷ ws) = ground (arith, length-erase v ws)

unfoldable pub all_distinct : List ℕ → Bool
all_distinct [] = true
all_distinct (w ∷ ws) = not (among w ws) && all_distinct ws

pub among-append_one : (v d : ℕ) (ws : List ℕ) → among v (ws ++ d ∷ []) ≡ ((d == v) || among v ws)
unfolding among
among-append_one v d [] = refl
among-append_one v d (w ∷ ws) = ground (arith, among-append_one v d ws)

pub all_distinct-append_one :
    (d : ℕ) (ws : List ℕ)
    → all_distinct ws ≡ true
    → among d ws ≡ false
    → all_distinct (ws ++ d ∷ []) ≡ true
unfolding all_distinct among
all_distinct-append_one d [] distinct out = refl
all_distinct-append_one d (w ∷ ws) distinct out =
    ground (arith, all_distinct-append_one d ws, among-append_one w d ws)

pub among-erase :
    (v d : ℕ) (ws : List ℕ)
    → all_distinct ws ≡ true
    → among v (erase d ws) ≡ (not (d == v) && among v ws)
unfolding all_distinct among erase
among-erase v d [] distinct = ground arith
among-erase v d (w ∷ ws) distinct = ground (arith, among-erase v d ws)

among-erase_le : (v d : ℕ) (ws : List ℕ) → among v ws ≡ false → among v (erase d ws) ≡ false
unfolding among erase
among-erase_le v d [] out = refl
among-erase_le v d (w ∷ ws) out = ground (arith, among-erase_le v d ws)

pub all_distinct-erase :
    (d : ℕ) (ws : List ℕ) → all_distinct ws ≡ true → all_distinct (erase d ws) ≡ true
unfolding all_distinct erase
all_distinct-erase d [] distinct = refl
all_distinct-erase d (w ∷ ws) distinct =
    ground (arith, all_distinct-erase d ws, among-erase_le w d ws)
