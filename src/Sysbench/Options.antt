-- ===== src/Sysbench/Options.antt =====
-- mysql/bench/sysbench-0.4.12/sysbench/sb_options.c: the table of options. A list of C nodes is a
-- List in its order, a pointer to a node is the node's position, NULL is none. `mem` says whether
-- malloc and strdup succeed during the call.
pub mod Lookup
pub mod Names
pub mod Size
pub mod Config
use htmsql.Prelude.{
  ℕ, suc, Bool, true, false, List, [], ◌∷◌, ◌++◌, Option, none, some, if◌then◌else◌, length, modify,
}
use htmsql.Sysbench.Text.{Text, text_eq, strtok_all}

pub data SbArgType : Type 0 where
  null flag int size float string list : SbArgType

-- `sb_arg_t`, without the description
pub record SbArg : Type 0 where
  pub name : Text
  pub type : SbArgType
  pub value : Option Text

-- `value_t`
pub record Value : Type 0 where
  pub text : Text
  pub ignore : Bool

-- `option_t`
pub record OptionT : Type 0 where
  pub name : Text
  pub type : SbArgType
  pub values : List Value
  pub ignore : Bool

unfoldable pub new_value : Text → Value
new_value t = record { text = t; ignore = false }

unfoldable pub new_option : Text → OptionT
new_option n = record { name = n; type = null; values = []; ignore = false }

-- One node further on in the list.
abbrev pub next : Option ℕ → Option ℕ
next none = none
next (some i) = some (suc i)

abbrev pub values_at : List OptionT → Option ℕ → Option (List Value)
values_at os none = none
values_at [] (some i) = none
values_at (o ∷ os) (some ℕ.zero) = some o.values
values_at (o ∷ os) (some (suc i)) = values_at os (some i)

unfoldable pub find_value : List Value → Option Text → Option ℕ
find_value vs none = none
find_value [] (some t) = none
find_value (v ∷ vs) (some t) = if text_eq v.text t then some 0 else next (find_value vs (some t))

unfoldable pub find_option : List OptionT → Option Text → Option ℕ
find_option os none = none
find_option [] (some n) = none
find_option (o ∷ os) (some n) = if text_eq o.name n then some 0 else next (find_option os (some n))

-- SB_LIST_DELETE of the node at a position
abbrev pub delete {ℓ} : {A : Type ℓ} → List A → ℕ → List A
delete [] i = []
delete (x ∷ xs) ℕ.zero = xs
delete (x ∷ xs) (suc i) = x ∷ delete xs i

-- The values that are left, and the code that is returned.
unfoldable pub remove_value : List Value → Option Text → List Value × ℕ
remove_value vs none = (vs, 1)
remove_value vs (some t) = elim (find_value vs (some t)) [
  | none ↦ (vs, 1)
  | some i ↦ (delete vs i, 0)
]

unfoldable pub remove_option : List OptionT → Option Text → List OptionT × ℕ
remove_option os none = (os, 1)
remove_option os (some n) = elim (find_option os (some n)) [
  | none ↦ (os, 1)
  | some i ↦ (delete os i, 0)
]

-- SB_LIST_ADD_TAIL of a copy of the text
unfoldable pub add_value : Bool → List Value → Option Text → List Value
add_value mem vs none = vs
add_value false vs (some t) = vs
add_value true vs (some t) = vs ++ new_value t ∷ []

-- The option of that name, made at the tail if there is none, and the list.
unfoldable pub add_option : Bool → List OptionT → Option Text → Option ℕ × List OptionT
add_option mem os none = (none, os)
add_option mem os (some n) = elim (find_option os (some n)) [
  | some i ↦ (some i, os)
  | none ↦ if mem then (some (length os), os ++ new_option n ∷ []) else (none, os)
]

add_values : Bool → List Value → List Text → List Value
add_values mem vs [] = vs
add_values mem vs (t ∷ ts) = add_values mem (add_value mem vs (some t)) ts

abbrev pub on : Text
on = b'o' ∷ b'n' ∷ []

-- `value == NULL || value[0] == '\0'`
abbrev is_blank : Option Text → Bool
is_blank none = true
is_blank (some []) = true
is_blank (some (c ∷ cs)) = false

abbrev is_on : Option Text → Bool
is_on none = true
is_on (some t) = text_eq t on

-- The switch of `set_option`, on the list of values that `free_values` has emptied.
unfoldable pub store : Bool → SbArgType → Option Text → List Value × ℕ
unfolding add_values
store mem SbArgType.flag v = (if is_on v then add_value mem [] (some on) else [], 0)
store mem SbArgType.int v = (add_value mem [] v, 0)
store mem SbArgType.size v = (add_value mem [] v, 0)
store mem SbArgType.float v = (add_value mem [] v, 0)
store mem SbArgType.string v = (add_value mem [] v, 0)
store mem SbArgType.list none = ([], 0)
store mem SbArgType.list (some t) = (add_values mem [] (strtok_all b',' t), 0)
store mem SbArgType.null v = ([], 1)

abbrev is_flag : SbArgType → Bool
is_flag SbArgType.flag = true
is_flag _ = false

-- The values and the return code that an option of this type gets from this text.
unfoldable pub assigned : Bool → SbArgType → Option Text → List Value × ℕ
assigned mem t v =
    if is_flag t then store mem t v else if is_blank v then ([], 0) else store mem t v

unfoldable pub set_option :
    Bool → List OptionT → Option Text → Option Text → SbArgType → List OptionT × ℕ
set_option mem os name value type =
    let r = add_option mem os name in
    let a = assigned mem type value in
    elim r.0 [
      | none ↦ (r.1, 1)
      | some i ↦ (modify (λ o. record o { type = type; values = a.0 }) r.1 i, a.1)
    ]

-- The loop stops at the first argument that is refused.
unfoldable pub sb_register_arg_set : Bool → List OptionT → List SbArg → List OptionT × ℕ
sb_register_arg_set mem os [] = (os, 0)
sb_register_arg_set mem os (a ∷ as') =
    let r = set_option mem os (some a.name) a.value a.type in
    let rest = sb_register_arg_set mem r.0 as' in elim r.1 [ ℕ.zero ↦ rest | suc code ↦ (r.0, 1) ]

-- `sb_get_value_list`, and the way from a name to its values in the other getters
unfoldable pub sb_get_value_list : List OptionT → Option Text → Option (List Value)
sb_get_value_list os name = values_at os (find_option os name)

abbrev is_empty {ℓ} : {A : Type ℓ} → List A → Bool
is_empty [] = true
is_empty (x ∷ xs) = false

unfoldable pub sb_get_value_flag : List OptionT → Option Text → Bool
sb_get_value_flag os name = elim (sb_get_value_list os name) [
  | none ↦ false
  | some vs ↦ if is_empty vs then false else true
]

unfoldable pub sb_get_value_string : List OptionT → Option Text → Option Text
sb_get_value_string os name = elim (sb_get_value_list os name) [
  | none ↦ none
  | some [] ↦ none
  | some (v ∷ vs) ↦ some v.text
]
