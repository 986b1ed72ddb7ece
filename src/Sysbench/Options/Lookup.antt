-- ===== src/Sysbench/Options/Lookup.antt =====
-- What the getters of sb_options.c see after `set_option` and `sb_register_arg_set`.
use htmsql.Prelude.{
  ℕ, ◌≡◌, refl, true, List, [], ◌∷◌, ◌++◌, Option, none, some, if◌then◌else◌, modify, length, arith,
  All, ◌≢◌, inl, inr, Bool-cases, Option-cases, ap, ◌∙◌,
}
use htmsql.Sysbench.Text.{Text, text_eq, text_eq→eq, text_eq_refl}
use htmsql.Sysbench.Options.{
  OptionT, SbArgType, SbArg, Value, new_option, find_option, add_option, assigned, set_option,
  sb_get_value_list, sb_register_arg_set, null, list, store, next, values_at,
}

-- The values of the first option of that name.
unfoldable pub look : List OptionT → Text → Option (List Value)
look [] m = none
look (o ∷ os) m = if text_eq o.name m then some o.values else look os m

values_at-next :
    (o : OptionT) (os : List OptionT) (i : Option ℕ) → values_at (o ∷ os) (next i) ≡ values_at os i
values_at-next o os none = refl
values_at-next o os (some i) = refl

pub get-look : (os : List OptionT) (m : Text) → sb_get_value_list os (some m) ≡ look os m
unfolding sb_get_value_list look find_option
get-look [] m = refl
get-look (o ∷ os) m = ground (arith, get-look os m, values_at-next o os (find_option os (some m)))

-- The first option of that name is changed, or a new one is made at the end and changed.
upsert : (OptionT → OptionT) → List OptionT → Text → List OptionT
upsert f [] n = f (new_option n) ∷ []
upsert f (o ∷ os) n = if text_eq o.name n then f o ∷ os else o ∷ upsert f os n

upsert-found :
    (f : OptionT → OptionT) (os : List OptionT) (n : Text) (i : ℕ)
    → find_option os (some n) ≡ some i
    → modify f os i ≡ upsert f os n
unfolding upsert find_option
upsert-found f [] n i h = cc
upsert-found f (o ∷ os) n i h = elim (Bool-cases (text_eq o.name n)) [
  | inl e ↦ ground arith
  | inr e ↦ elim (Option-cases (find_option os (some n))) [
    | inl absent ↦ ground arith
    | inr (j, p) ↦ ground (arith, upsert-found f os n j p)
  ]
]

pub some-ne-none : {i : ℕ} → some i ≡ none → ⊥
some-ne-none h = cc

pub next-eq-none : (i : Option ℕ) → next i ≡ none → i ≡ none
next-eq-none none h = refl
next-eq-none (some i) h = cc

upsert-absent :
    (f : OptionT → OptionT) (os : List OptionT) (n : Text)
    → find_option os (some n) ≡ none
    → modify f (os ++ new_option n ∷ []) (length os) ≡ upsert f os n
unfolding upsert find_option
upsert-absent f [] n h = refl
upsert-absent f (o ∷ os) n h = elim (Bool-cases (text_eq o.name n)) [
  | inl e ↦ absurd (some-ne-none (rw e at h))
  | inr e ↦ rw (e, upsert-absent f os n (next-eq-none _ (rw e at h)))
]

add_option-absent :
    (os : List OptionT) (n : Text)
    → find_option os (some n) ≡ none
    → add_option true os (some n) ≡ (some (length os), os ++ new_option n ∷ [])
unfolding add_option
add_option-absent os n h = rw (h, add_option)

add_option-found :
    (os : List OptionT) (n : Text) (i : ℕ)
    → find_option os (some n) ≡ some i
    → add_option true os (some n) ≡ (some i, os)
unfolding add_option
add_option-found os n i h = rw (h, add_option)

-- With memory at hand there is always an option to work on.
pub add_option-some :
    (os : List OptionT) (n : Text) → (i : ℕ) × ((add_option true os (some n)).0 ≡ some i)
add_option-some os n = elim (Option-cases (find_option os (some n))) [
  | inl absent ↦
      (length os, ap (λ (r : Option ℕ × List OptionT). r.0) (add_option-absent os n absent))
  | inr (i, found) ↦ (i, ap (λ (r : Option ℕ × List OptionT). r.0) (add_option-found os n i found))
]

abbrev assign : Option Text → SbArgType → OptionT → OptionT
assign v t o = record o { type = t; values = (assigned true t v).0 }

-- With memory at hand `set_option` is one change to the option of that name.
set_option-upsert :
    (os : List OptionT) (n : Text) (v : Option Text) (t : SbArgType)
    → set_option true os (some n) v t ≡ (upsert (assign v t) os n, (assigned true t v).1)
unfolding set_option
set_option-upsert os n v t = elim (Option-cases (find_option os (some n))) [
  | inl absent ↦ rw (
    add_option-absent os n absent,
    set_option,
    add_option-absent os n absent,
    upsert-absent (assign v t) os n absent,
  )
  | inr (i, found) ↦ rw (
    add_option-found os n i found,
    set_option,
    add_option-found os n i found,
    upsert-found (assign v t) os n i found,
  )
]

look-upsert :
    (f : OptionT → OptionT) (os : List OptionT) (n m : Text) (vs : List Value)
    → ((o : OptionT) → (f o).values ≡ vs)
    → ((o : OptionT) → (f o).name ≡ o.name)
    → look (upsert f os n) m ≡ (if text_eq n m then some vs else look os m)
unfolding look upsert new_option
look-upsert f [] n m vs hv hn = ground (arith, hv (new_option n), hn (new_option n))
look-upsert f (o ∷ os) n m vs hv hn = ground (
  arith,
  hv o,
  hn o,
  look-upsert f os n m vs hv hn,
  text_eq→eq o.name n,
  text_eq→eq o.name m,
  text_eq→eq n m,
  text_eq_refl n,
)

-- With memory at hand, after `set_option` the option of that name has the values that the text
-- and the type give, whatever it had, and every other option has the values it had.
pub get-set_option :
    (os : List OptionT) (n m : Text) (v : Option Text) (t : SbArgType)
    → sb_get_value_list (set_option true os (some n) v t).0 (some m)
      ≡ (if text_eq n m then some (assigned true t v).0 else sb_get_value_list os (some m))
get-set_option os n m v t = rw (
  set_option-upsert os n v t,
  get-look (upsert (assign v t) os n) m,
  get-look os m,
  look-upsert (assign v t) os n m (assigned true t v).0 (λ o. refl) (λ o. refl),
)

-- The values of the last argument of that name, or else the ones given.
abbrev pub registered : List SbArg → Text → Option (List Value) → Option (List Value)
registered [] m vs = vs
registered (a ∷ rest) m vs =
    registered rest m (if text_eq a.name m then some (assigned true a.type a.value).0 else vs)

assigned-code : (t : SbArgType) (v : Option Text) → t ≢ null → (assigned true t v).1 ≡ 0
unfolding assigned store
assigned-code null v h = absurd (h refl)
assigned-code list none h = refl
assigned-code list (some []) h = refl
assigned-code list (some (c ∷ cs)) h = refl
assigned-code t v h = ground arith

set_option-code :
    (os : List OptionT) (n : Text) (v : Option Text) (t : SbArgType)
    → (set_option true os (some n) v t).1 ≡ (assigned true t v).1
set_option-code os n v t = ap (λ (r : List OptionT × ℕ). r.1) (set_option-upsert os n v t)

register-step :
    (os : List OptionT) (a : SbArg) (rest : List SbArg)
    → a.type ≢ null
    → sb_register_arg_set true os (a ∷ rest)
      ≡ sb_register_arg_set true (set_option true os (some a.name) a.value a.type).0 rest
unfolding sb_register_arg_set
register-step os a rest h =
    rw (
      set_option-code os a.name a.value a.type ∙ assigned-code a.type a.value h,
      sb_register_arg_set,
    )

-- With memory at hand a set of arguments that all have a known type is taken whole, and each name
-- then has the values of its last argument in the set, or the values that it had before.
pub get-sb_register_arg_set :
    (os : List OptionT) (args : List SbArg) (m : Text)
    → All (λ a. a.type ≢ null) args
    → ((sb_register_arg_set true os args).1 ≡ 0)
      × (sb_get_value_list (sb_register_arg_set true os args).0 (some m)
          ≡ registered args m (sb_get_value_list os (some m)))
unfolding sb_register_arg_set
get-sb_register_arg_set os [] m h = (refl, refl)
get-sb_register_arg_set os (a ∷ rest) m h =
    rw (register-step os a rest h.0, ← get-set_option os a.name m a.value a.type)
      (get-sb_register_arg_set (set_option true os (some a.name) a.value a.type).0 rest m h.1)
