-- ===== src/Sysbench/Text.antt =====
-- C strings as lists of bytes without the terminating zero, and the functions of <string.h>,
-- <stdlib.h> and <ctype.h> that mysql/bench/sysbench-0.4.12/sysbench uses on them.
use htmsql.Prelude.{
  ℕ, ◌≡◌, refl, Bool, true, false, ◌&&◌, ◌||◌, List, [], ◌∷◌, Option, none, some, arith, leb, ◌==◌,
  if◌then◌else◌,
}

abbrev pub Text : Type 0
Text = List ℕ

-- `!strcmp(a, b)`
unfoldable pub text_eq : Text → Text → Bool
text_eq [] [] = true
text_eq [] (y ∷ ys) = false
text_eq (x ∷ xs) [] = false
text_eq (x ∷ xs) (y ∷ ys) = (x == y) && text_eq xs ys

pub text_eq_refl : (a : Text) → text_eq a a ≡ true
unfolding text_eq
text_eq_refl [] = refl
text_eq_refl (x ∷ xs) = ground (arith, text_eq_refl xs)

pub text_eq→eq : (a b : Text) → text_eq a b ≡ true → a ≡ b
unfolding text_eq
text_eq→eq [] [] h = refl
text_eq→eq [] (y ∷ ys) h = ground arith
text_eq→eq (x ∷ xs) [] h = ground arith
text_eq→eq (x ∷ xs) (y ∷ ys) h = ground (arith, text_eq→eq xs ys)

-- `isspace`, in the C locale
abbrev pub isspace : ℕ → Bool
isspace c = (c == 32) || (leb 9 c && leb c 13)

abbrev pub isdigit : ℕ → Bool
isdigit c = leb b'0' c && leb c b'9'

-- The text before the first `c`, and the text behind it if there is one: `strchr`.
unfoldable pub split_at : ℕ → Text → Text × Option Text
split_at c [] = ([], none)
split_at c (x ∷ xs) = let r = split_at c xs in if x == c then ([], some xs) else (x ∷ r.0, r.1)

-- A text cut at every `c`: the first piece and the others.
segments : ℕ → Text → Text × List Text
segments c [] = ([], [])
segments c (x ∷ xs) = let r = segments c xs in if x == c then ([], r.0 ∷ r.1) else (x ∷ r.0, r.1)

abbrev non_empty : List Text → List Text
non_empty [] = []
non_empty ([] ∷ ts) = non_empty ts
non_empty ((c ∷ cs) ∷ ts) = (c ∷ cs) ∷ non_empty ts

-- All the tokens that `strtok` finds with one separator: empty pieces are passed over.
unfoldable pub strtok_all : ℕ → Text → List Text
unfolding segments
strtok_all c t = let r = segments c t in non_empty (r.0 ∷ r.1)

strtok_all_runs : strtok_all 44 (44 ∷ 97 ∷ 98 ∷ 44 ∷ 44 ∷ 99 ∷ []) ≡ (97 ∷ 98 ∷ []) ∷ (99 ∷ []) ∷ []
unfolding strtok_all
strtok_all_runs = refl
