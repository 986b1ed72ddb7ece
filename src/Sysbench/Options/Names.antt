-- ===== src/Sysbench/Options/Names.antt =====
-- Removal of options in sb_options.c, and the invariant that the names in the table are distinct.
use htmsql.Prelude.{
  ℕ, zero, suc, ◌≡◌, refl, Bool, true, false, List, [], ◌∷◌, ◌++◌, Option, none, some,
  if◌then◌else◌, modify, All, arith, ◌↔◌, ◌≢◌, subst, inl, inr, Bool-cases, Option-cases, length,
}
use htmsql.Sysbench.Text.{Text, text_eq, text_eq→eq, text_eq_refl}
use htmsql.Sysbench.Options.{
  OptionT, SbArgType, new_option, find_option, add_option, assigned, set_option, remove_option,
  next, delete, sb_get_value_list,
}
use htmsql.Sysbench.Options.Lookup.{look, get-look, some-ne-none, next-eq-none}

abbrev Differs : Text → OptionT → Type 0
Differs n o = text_eq o.name n ≡ false

-- No two options have the same name.
abbrev pub IsDistinct : List OptionT → Type 0
IsDistinct [] = Unit
IsDistinct (o ∷ os) = All (Differs o.name) os × IsDistinct os

text_eq-false_comm : (a b : Text) → text_eq a b ≡ false → text_eq b a ≡ false
text_eq-false_comm a b h = elim (Bool-cases (text_eq b a)) [
  | inl e ↦ let same : b ≡ a = text_eq→eq b a e in absurd (cc (h, same, text_eq_refl a))
  | inr e ↦ e
]

absent-Differs :
    (os : List OptionT) (n : Text) → find_option os (some n) ≡ none → All (Differs n) os
unfolding find_option
absent-Differs [] n h = tt
absent-Differs (o ∷ os) n h = elim (Bool-cases (text_eq o.name n)) [
  | inl e ↦ absurd (some-ne-none (rw e at h))
  | inr e ↦ (e, absent-Differs os n (next-eq-none _ (rw e at h)))
]

All-new :
    (os : List OptionT) (m n : Text)
    → All (Differs m) os
    → text_eq n m ≡ false
    → All (Differs m) (os ++ new_option n ∷ [])
unfolding new_option
All-new [] m n h e = (e, tt)
All-new (o ∷ os) m n h e = (h.0, All-new os m n h.1 e)

append-IsDistinct :
    (os : List OptionT) (n : Text)
    → All (Differs n) os
    → IsDistinct os
    → IsDistinct (os ++ new_option n ∷ [])
append-IsDistinct [] n a d = (tt, tt)
append-IsDistinct (o ∷ os) n a d =
    (All-new os o.name n d.0 (text_eq-false_comm o.name n a.0), append-IsDistinct os n a.1 d.1)

modify-All :
    (f : OptionT → OptionT) (os : List OptionT) (i : ℕ) (m : Text)
    → ((o : OptionT) → (f o).name ≡ o.name)
    → All (Differs m) os
    → All (Differs m) (modify f os i)
modify-All f [] i m keep h = tt
modify-All f (o ∷ os) zero m keep h = (rw (keep o) h.0, h.1)
modify-All f (o ∷ os) (suc i) m keep h = (h.0, modify-All f os i m keep h.1)

modify-IsDistinct :
    (f : OptionT → OptionT) (os : List OptionT) (i : ℕ)
    → ((o : OptionT) → (f o).name ≡ o.name)
    → IsDistinct os
    → IsDistinct (modify f os i)
modify-IsDistinct f [] i keep d = tt
modify-IsDistinct f (o ∷ os) zero keep d = (rw (keep o) d.0, d.1)
modify-IsDistinct f (o ∷ os) (suc i) keep d =
    (modify-All f os i o.name keep d.0, modify-IsDistinct f os i keep d.1)

delete-All :
    (os : List OptionT) (i : ℕ) (m : Text) → All (Differs m) os → All (Differs m) (delete os i)
delete-All [] i m h = tt
delete-All (o ∷ os) zero m h = h.1
delete-All (o ∷ os) (suc i) m h = (h.0, delete-All os i m h.1)

delete-IsDistinct : (os : List OptionT) (i : ℕ) → IsDistinct os → IsDistinct (delete os i)
delete-IsDistinct [] i d = tt
delete-IsDistinct (o ∷ os) zero d = d.1
delete-IsDistinct (o ∷ os) (suc i) d = (delete-All os i o.name d.0, delete-IsDistinct os i d.1)

add_option-IsDistinct :
    (mem : Bool) (os : List OptionT) (n : Option Text)
    → IsDistinct os
    → IsDistinct (add_option mem os n).1
unfolding add_option
add_option-IsDistinct mem os none d = d
add_option-IsDistinct mem os (some n) d = elim (Option-cases (find_option os (some n))) [
  | inr (i, e) ↦ rw (e, add_option) d
  | inl e ↦ rw (e, add_option) (added mem e)
]
  where
    added :
        (mem : Bool)
        → find_option os (some n) ≡ none
        → IsDistinct
            (if◌then◌else◌ {A = Option ℕ × List OptionT} mem
              (some (length os), os ++ new_option n ∷ [])
              (none, os)).1
    added true e = append-IsDistinct os n (absent-Differs os n e) d
    added false e = d

assigned_at-IsDistinct :
    (f : OptionT → OptionT) (at : Option ℕ) (os : List OptionT) (code : ℕ)
    → ((o : OptionT) → (f o).name ≡ o.name)
    → IsDistinct os
    → IsDistinct
        (elim at as (λ x. List OptionT × ℕ) [ none ↦ (os, 1) | some i ↦ (modify f os i, code) ]).0
assigned_at-IsDistinct f none os code keep d = d
assigned_at-IsDistinct f (some i) os code keep d = modify-IsDistinct f os i keep d

-- `set_option` keeps the names distinct, with and without memory.
pub set_option-IsDistinct :
    (mem : Bool) (os : List OptionT) (n v : Option Text) (t : SbArgType)
    → IsDistinct os
    → IsDistinct (set_option mem os n v t).0
unfolding set_option
set_option-IsDistinct mem os n v t d =
    assigned_at-IsDistinct _ (add_option mem os n).0 (add_option mem os n).1 (assigned mem t v).1
      (λ o. refl) (add_option-IsDistinct mem os n d)

look-Differs :
    (os : List OptionT) (n m : Text) → All (Differs n) os → text_eq n m ≡ true → look os m ≡ none
unfolding look
look-Differs [] n m h e = refl
look-Differs (o ∷ os) n m h e =
    rw (subst (λ (t : Text). text_eq o.name t ≡ false) (text_eq→eq n m e) h.0)
      (look-Differs os n m h.1 e)

next-eq-some : (i : Option ℕ) (j : ℕ) → next i ≡ some (suc j) → i ≡ some j
next-eq-some none j h = cc
next-eq-some (some i) j h = ground arith

next-ne-zero : (i : Option ℕ) → next i ≡ some 0 → ⊥
next-ne-zero none h = cc
next-ne-zero (some i) h = ground arith

look-delete :
    (os : List OptionT) (n m : Text) (i : ℕ)
    → IsDistinct os
    → find_option os (some n) ≡ some i
    → look (delete os i) m ≡ (if text_eq n m then none else look os m)
unfolding look find_option
look-delete [] n m i d h = cc
look-delete (o ∷ os) n m zero d h = elim (Bool-cases (text_eq o.name n)) [
  | inr e ↦ absurd (next-ne-zero _ (rw e at h))
  | inl e ↦ rw (← text_eq→eq o.name n e) (elim (Bool-cases (text_eq o.name m)) [
    | inl same ↦ rw same (look-Differs os o.name m d.0 same)
    | inr other ↦ rw other
  ])
]
look-delete (o ∷ os) n m (suc i) d h = elim (Bool-cases (text_eq o.name n)) [
  | inl e ↦ absurd (ground arith)
  | inr e ↦ ground (
    arith,
    look-delete os n m i d.1 (next-eq-some _ i (rw e at h)),
    text_eq→eq o.name m,
    text_eq→eq n m,
    text_eq_refl m,
  )
]

look-absent :
    (os : List OptionT) (n m : Text)
    → find_option os (some n) ≡ none
    → look os m ≡ (if text_eq n m then none else look os m)
look-absent os n m h = elim (Bool-cases (text_eq n m)) [
  | inl e ↦ rw (e, look-Differs os n m (absent-Differs os n h) e)
  | inr e ↦ rw e
]

remove_option-absent :
    (os : List OptionT) (n : Text)
    → find_option os (some n) ≡ none
    → remove_option os (some n) ≡ (os, 1)
unfolding remove_option
remove_option-absent os n h = rw (h, remove_option)

remove_option-found :
    (os : List OptionT) (n : Text) (i : ℕ)
    → find_option os (some n) ≡ some i
    → remove_option os (some n) ≡ (delete os i, 0)
unfolding remove_option
remove_option-found os n i h = rw (h, remove_option)

-- Where the names are distinct, `remove_option` returns 0 exactly when there was an option of that
-- name; then the name is gone, every other option keeps its values, and the names stay distinct.
pub get-remove_option :
    (os : List OptionT) (n m : Text)
    → IsDistinct os
    → (sb_get_value_list (remove_option os (some n)).0 (some m)
        ≡ (if text_eq n m then none else sb_get_value_list os (some m)))
      × (((remove_option os (some n)).1 ≡ 0) ↔ (find_option os (some n) ≢ none))
      × IsDistinct (remove_option os (some n)).0
get-remove_option os n m d = elim (Option-cases (find_option os (some n))) [
  | inl absent ↦
      rw (remove_option-absent os n absent, absent, get-look os m)
        (look-absent os n m absent, ((λ h. absurd (omega arith)), (λ h. absurd (h refl))), d)
  | inr (i, found) ↦
      rw (remove_option-found os n i found, found, get-look (delete os i) m, get-look os m)
        (
          look-delete os n m i d found,
          ((λ h e. some-ne-none e), (λ h. refl)),
          delete-IsDistinct os i d,
        )
]
