-- ===== src/Sysbench/Tests.antt =====
-- Runs of the model at concrete inputs: the table of options, and the cpu and threads tests.
use htmsql.Prelude.{
  ℕ, ◌≡◌, ◌≢◌, ◌↔◌, refl, true, false, List, [], ◌∷◌, ◌++◌, some, arith, if◌then◌else◌, inr,
}
use htmsql.Sysbench.Text.{Text, text_eq}
use htmsql.Sysbench.Options.{
  SbArgType, flag, int, SbArg, OptionT, new_value, assigned, set_option, sb_get_value_list,
}
use htmsql.Sysbench.Options.Lookup.{get-set_option}
use htmsql.Sysbench.Options.Names.{IsDistinct}
use htmsql.Sysbench.Options.Config.{read_values, done, endless, read_config}
use htmsql.Sysbench.Options.Config.Reading.{IsBare, quote, read_values-quote, read_config-bare}
use htmsql.Sysbench.Cpu.{IsRoot, IsPrime, is_counted, is_counted-IsPrime}

-- The names "a" and "b", and the text "on"
abbrev a : Text
a = b'a' ∷ []

abbrev b : Text
b = b'b' ∷ []

abbrev on : Text
on = b'o' ∷ b'n' ∷ []

abbrev table : List OptionT
table =
    record {
      name = b;
      type = int;
      values = record { text = b'5' ∷ []; ignore = false } ∷ [];
      ignore = false;
    }
    ∷ []

get-set_option_example :
    sb_get_value_list (set_option true table (some a) (some on) flag).0 (some b) ≡ (
      if text_eq a b
      then some (assigned true flag (some on)).0
      else sb_get_value_list table (some b))
get-set_option_example = get-set_option table a b (some on) flag

abbrev arguments : List SbArg
arguments = record { name = a; type = flag; value = some on } ∷ []

flag-null : flag ≢ SbArgType.null
flag-null h = cc

table-IsDistinct : IsDistinct table
table-IsDistinct = (tt, tt)

digit-IsBare : IsBare 49
digit-IsBare = record { no_space = refl; no_comment = refl; no_quotes = refl; no_separator = refl }

abbrev digits : List Text
digits = (49 ∷ []) ∷ (50 ∷ []) ∷ []

read_values-quote_example :
    read_values true 3 (quote 34 ((49 ∷ []) ∷ (50 ∷ []) ∷ [])) []
    ≡ done ([] ++ new_value (49 ∷ []) ∷ new_value (50 ∷ []) ∷ [])
read_values-quote_example =
    read_values-quote 34 3 ((49 ∷ []) ∷ (50 ∷ []) ∷ []) [] (inr refl) ((refl, tt), ((refl, tt), tt))
      (omega arith)

read_config-bare_example : read_config true 3 ((a ++ (b'=' ∷ 49 ∷ [])) ∷ []) [] ≡ endless
read_config-bare_example = read_config-bare 3 49 a [] [] [] (refl, tt) digit-IsBare

-- The root of 5
abbrev two : ℕ → ℕ
two n = 2

two-IsRoot : IsRoot two 5
two-IsRoot = record { low = omega arith; high = omega arith }

is_counted-IsPrime_example : (is_counted two 5 ≡ true) ↔ IsPrime 5
is_counted-IsPrime_example = is_counted-IsPrime two-IsRoot (omega arith)
