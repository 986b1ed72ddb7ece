-- ===== src/Sysbench/Options/Config/Writing.antt =====
-- What `write_config` puts into the file.
use htmsql.Prelude.{◌≡◌, refl, ap, sym, ◌∙◌, false, List, [], ◌∷◌, ◌++◌, All, arith}
use mathlib.Core.List.{append_assoc, append-nil}
use htmsql.Sysbench.Text.{Text}
use htmsql.Sysbench.Options.{OptionT, Value}
use htmsql.Sysbench.Options.Config.{write_values, write_config}

abbrev pub IsWritten : Value → Type 0
IsWritten v = v.ignore ≡ false

abbrev pub joined : List Value → Text
joined [] = []
joined (v ∷ vs) = v.text ++ joined vs

-- The values of an option are written one behind the other, with a separator behind the last one
-- only, so the file does not tell where one value ends and the next begins.
pub write_values-joined :
    (v : Value) (vs : List Value)
    → All IsWritten (v ∷ vs)
    → write_values (v ∷ vs) ≡ joined (v ∷ vs) ++ (b',' ∷ 32 ∷ [])
unfolding write_values
write_values-joined v [] h = rw (h.0, append-nil v.text)
write_values-joined v (w ∷ vs) h = rw (h.0) (
    ap (λ t. v.text ++ t) (write_values-joined w vs h.1)
    ∙ sym (append_assoc v.text (joined (w ∷ vs)) (b',' ∷ 32 ∷ [])))

-- A second `write_config` of the same table writes nothing: the first marks every option.
pub write_config-write_config : (os : List OptionT) → (write_config (write_config os).0).1 ≡ []
unfolding write_config
write_config-write_config [] = refl
write_config-write_config (o ∷ os) = ground (arith, write_config-write_config os)
