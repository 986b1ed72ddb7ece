-- ===== src/Sysbench/Options/Config.antt =====
-- `read_config` and `write_config` of sb_options.c. A file is the list of lines that fgets returns,
-- each below MAXSTRLEN; the while loop over the values of a line takes fuel.
pub mod Reading
pub mod Writing
use htmsql.Prelude.{
  ℕ, zero, suc, ◌+◌, ◌<◌, ◌≡◌, refl, ap, sym, ◌∙◌, Bool, true, false, ◌||◌, List, [], ◌∷◌, ◌++◌,
  Option, none, some, if◌then◌else◌, ◌==◌, length, All, modify, arith, get_elem?,
}
use htmsql.Sysbench.Text.{Text, isspace, split_at}
use htmsql.Sysbench.Options.{OptionT, Value, new_value, add_value, add_option, is_empty}

-- What the body of the loop finds at `tmp`.
pub data Next : Type 0 where
  finish : Next  -- the end of the text, or a comment
  no_quote : Next  -- a quoted value that is not closed
  space : (rest : Text) → Next
  quoted : (value rest : Text) → Next
  bare : (value : Text) → Next  -- `tmp` stays, with the separator overwritten by '\0'

abbrev after_separator : Text → Text
after_separator t = elim (split_at b',' t).1 [ none ↦ [] | some rest ↦ rest ]

next_value : Text → Next
next_value [] = finish
next_value (c ∷ cs) =
    if isspace c
    then space cs
    else if c == b'#'
    then finish
    else if (c == 39) || (c == 34)
    then elim (split_at c cs).1 [
      | none ↦ no_quote
      | some rest ↦ quoted (split_at c cs).0 (after_separator rest)
    ]
    else bare (split_at b',' (c ∷ cs)).0

pub data Line : Type 0 where
  out_of_fuel : Line
  unexpected_eol : (values : List Value) → Line
  done : (values : List Value) → Line

-- The while loop of `read_config`, on the text behind the delimiter.
unfoldable pub read_values : Bool → ℕ → Text → List Value → Line
unfolding next_value
read_values mem zero t vs = out_of_fuel
read_values mem (suc fuel) t vs = elim (next_value t) [
  | finish ↦ done vs
  | no_quote ↦ unexpected_eol vs
  | space rest ↦ read_values mem fuel rest vs
  | quoted v rest ↦ read_values mem fuel rest (add_value mem vs (some v))
  | bare v ↦ read_values mem fuel v (add_value mem vs (some v))
]

-- `null` is the NULL that is returned when memory or a closing quote is missing.
pub data Config : Type 0 where
  endless : Config
  null : (options : List OptionT) → Config
  config : (options : List OptionT) → Config

abbrev set_values : List OptionT → ℕ → List Value → List OptionT
set_values os i vs = modify (λ o. record o { values = vs }) os i

abbrev values_of : Option OptionT → List Value
values_of none = []
values_of (some o) = o.values

unfoldable pub read_config : Bool → ℕ → List Text → List OptionT → Config
read_config mem fuel [] os = config os
read_config mem fuel (line ∷ lines) os = elim (split_at b'=' line).1 [
  | none ↦ read_config mem fuel lines os
  | some rest ↦
      let r = add_option mem os (some (split_at b'=' line).0) in
      elim r.0 [
        | none ↦ null r.1
        | some i ↦ elim (read_values mem fuel rest (values_of (get_elem? r.1 i))) [
          | out_of_fuel ↦ endless
          | unexpected_eol vs ↦ null (set_values r.1 i vs)
          | done vs ↦ read_config mem fuel lines (set_values r.1 i vs)
        ]
      ]
]

-- The loop over the values of one option: SB_LIST_ITEM_LAST is true where the item is not the last,
-- so that the separator follows the last value only.
pub write_values : List Value → Text
write_values [] = []
write_values (v ∷ vs) =
    (if v.ignore then [] else v.text)
    ++ ((if is_empty vs then b',' ∷ 32 ∷ [] else []) ++ write_values vs)

-- The options, marked as written, and the text of the file.
unfoldable pub write_config : List OptionT → List OptionT × Text
unfolding write_values
write_config [] = ([], [])
write_config (o ∷ os) =
    let r = write_config os in
    if o.ignore then (o ∷ r.0, r.1) else (
      record o { ignore = true } ∷ r.0,
      o.name ++ (32 ∷ b'=' ∷ 32 ∷ []) ++ write_values o.values ++ (10 ∷ []) ++ r.1,
    )
