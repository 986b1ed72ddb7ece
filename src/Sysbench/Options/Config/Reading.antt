-- ===== src/Sysbench/Options/Config/Reading.antt =====
-- What the loop of `read_config` over the values of a line does.
use htmsql.Prelude.{
  ℕ, zero, suc, ◌<◌, ◌≡◌, refl, ap, sym, ◌∙◌, Bool, true, false, ◌||◌, List, [], ◌∷◌, ◌++◌, some,
  ◌==◌, length, All, arith, ◌⊎◌, subst, get_elem?, inl, inr,
}
use mathlib.Core.List.{map, append_assoc, append-nil}
use htmsql.Sysbench.Text.{Text, isspace, split_at}
use htmsql.Sysbench.Options.{OptionT, Value, new_value, add_value, add_option}
use htmsql.Sysbench.Options.Lookup.{add_option-some}
use htmsql.Sysbench.Options.Config.{
  next_value, bare, quoted, read_values, out_of_fuel, done, read_config, values_of, endless,
}

-- A value that is written with no quotes begins with such a character.
pub record IsBare (c : ℕ) : Type 0 where
  pub no_space : isspace c ≡ false
  pub no_comment : (c == b'#') ≡ false
  pub no_quotes : ((c == 39) || (c == 34)) ≡ false
  pub no_separator : (c == b',') ≡ false

next_value-bare :
    (c : ℕ) (cs : Text) → IsBare c → next_value (c ∷ cs) ≡ bare (c ∷ (split_at b',' cs).0)
unfolding next_value split_at
next_value-bare c cs h = rw (h.no_space, h.no_comment, h.no_quotes, h.no_separator)

-- At a value with no quotes the loop never comes to its end, whatever the fuel: it adds the value
-- again in every round and leaves `tmp` where it is.
pub read_values-bare :
    (mem : Bool) (fuel c : ℕ) (cs : Text) (vs : List Value)
    → IsBare c
    → read_values mem fuel (c ∷ cs) vs ≡ out_of_fuel
unfolding read_values
read_values-bare mem zero c cs vs h = refl
read_values-bare mem (suc fuel) c cs vs h =
    rw (next_value-bare c cs h, read_values) (read_values-bare mem fuel c (split_at b',' cs).0 _ h)

-- The values of one option as `read_config` takes them: each in quotes, with a separator behind it.
abbrev pub quote : ℕ → List Text → Text
quote q [] = []
quote q (v ∷ vs) = q ∷ v ++ (q ∷ b',' ∷ quote q vs)

abbrev pub Lacks : ℕ → Text → Type 0
Lacks c t = All (λ x. (x == c) ≡ false) t

split_at-append :
    (c : ℕ) (t rest : Text) → Lacks c t → split_at c (t ++ (c ∷ rest)) ≡ (t, some rest)
unfolding split_at
split_at-append c [] rest h = ground arith
split_at-append c (x ∷ t) rest h = rw (h.0, split_at-append c t rest h.1)

abbrev pub IsQuote : ℕ → Type 0
IsQuote q = (q ≡ 39) ⊎ (q ≡ 34)

next_value-quoted :
    (q : ℕ) (v rest : Text)
    → IsQuote q
    → Lacks q v
    → next_value (q ∷ v ++ (q ∷ b',' ∷ rest)) ≡ quoted v rest
unfolding next_value split_at
next_value-quoted q v rest (inl e) hv =
    subst (λ k. Lacks k v → next_value (k ∷ v ++ (k ∷ b',' ∷ rest)) ≡ quoted v rest) (sym e)
      (λ h. rw (split_at-append 39 v (b',' ∷ rest) h, split_at-append 39 v (b',' ∷ rest) h)) hv
next_value-quoted q v rest (inr e) hv =
    subst (λ k. Lacks k v → next_value (k ∷ v ++ (k ∷ b',' ∷ rest)) ≡ quoted v rest) (sym e)
      (λ h. rw (split_at-append 34 v (b',' ∷ rest) h, split_at-append 34 v (b',' ∷ rest) h)) hv

-- Values that are all in quotes, with a separator behind each, are read back in their order, behind
-- the values that the option had; one round for each and one more are enough.
pub read_values-quote :
    (q fuel : ℕ) (ts : List Text) (vs : List Value)
    → IsQuote q
    → All (Lacks q) ts
    → length ts < fuel
    → read_values true fuel (quote q ts) vs ≡ done (vs ++ map new_value ts)
unfolding read_values add_value
read_values-quote q zero ts vs hq ht hf = absurd (omega arith)
read_values-quote q (suc fuel) [] vs hq ht hf = rw append-nil
read_values-quote q (suc fuel) (t ∷ ts) vs hq ht hf =
    rw (next_value-quoted q t (quote q ts) hq ht.0, read_values)
      (read_values-quote q fuel ts (vs ++ new_value t ∷ []) hq ht.1 (omega arith)
        ∙ ap done (append_assoc vs (new_value t ∷ []) (map new_value ts)))

-- `read_config` does not return once it meets a line whose first value stands with no quotes
-- directly behind the delimiter, as long as memory is there: no fuel is enough.
pub read_config-bare :
    (fuel c : ℕ) (name cs : Text) (lines : List Text) (os : List OptionT)
    → Lacks b'=' name
    → IsBare c
    → read_config true fuel ((name ++ (b'=' ∷ c ∷ cs)) ∷ lines) os ≡ endless
unfolding read_config
read_config-bare fuel c name cs lines os hn hc =
    let (i, found) = add_option-some os name in
    rw (
      split_at-append b'=' name (c ∷ cs) hn,
      read_config,
      split_at-append b'=' name (c ∷ cs) hn,
      found,
      split_at-append b'=' name (c ∷ cs) hn,
      read_values-bare true fuel c cs (values_of (get_elem? (add_option true os (some name)).1 i))
          hc,
    )
