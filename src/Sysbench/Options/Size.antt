-- ===== src/Sysbench/Options/Size.antt =====
-- `sb_get_value_size` of sb_options.c: a number with a size modifier, in an unsigned long long.
use htmsql.Prelude.{
  ℕ, zero, suc, ◌+◌, ◌-◌, ◌*◌, ◌%◌, ◌^◌, ◌≡◌, refl, ◌∙◌, ap, sym, Bool, true, false, List, [], ◌∷◌,
  ◌++◌, Option, none, some, if◌then◌else◌, ◌==◌, All, arith,
}
use native.Mathlib.Nat.{pow-suc, mul_assoc, mul_comm}
use mathlib.Core.List.{append-nil}
use htmsql.Sysbench.Text.{Text, isdigit}
use htmsql.Sysbench.Options.{OptionT, sb_get_value_list}

abbrev u64 : ℕ → ℕ
u64 n = n % 2 ^ 64

-- The loop over the characters: `res`, and the character that ended it behind a digit (`rc == 2`).
-- `seen` is `rc == 1`.
scan_size : Text → ℕ → Bool → ℕ × Option ℕ
scan_size [] res seen = (res, none)
scan_size (c ∷ cs) res seen =
    let rest = scan_size cs (u64 (res * 10 + (c - b'0'))) true in
    if isdigit c then rest else (res, if seen then some c else none)

-- The index of a size modifier in "KMGT".
pub sizemods : ℕ → Option ℕ
sizemods c =
    if c == b'K'
    then some 0
    else if c == b'M'
    then some 1
    else if c == b'G'
    then some 2
    else if c == b'T'
    then some 3
    else none

-- `res *= 1024`, so often
scale : ℕ → ℕ → ℕ
scale zero res = res
scale (suc n) res = scale n (u64 (res * 1024))

-- The number that the text of one value stands for.
unfoldable pub size_of_text : Text → ℕ
unfolding scan_size sizemods scale
size_of_text t =
    let r = scan_size t 0 false in
    elim r.1 [ none ↦ r.0 | some m ↦ elim (sizemods m) [ none ↦ 0 | some n ↦ scale (suc n) r.0 ] ]

unfoldable pub sb_get_value_size : List OptionT → Option Text → ℕ
sb_get_value_size os name = elim (sb_get_value_list os name) [
  | none ↦ 0
  | some [] ↦ 0
  | some (v ∷ vs) ↦ size_of_text v.text
]

-- The decimal number that follows `acc`, with no bound.
abbrev pub decimal : ℕ → Text → ℕ
decimal acc [] = acc
decimal acc (c ∷ cs) = decimal (acc * 10 + (c - b'0')) cs

abbrev pub IsDigit : ℕ → Type 0
IsDigit c = isdigit c ≡ true

scan_size-digits :
    (ds rest : Text) (acc : ℕ)
    → All IsDigit ds
    → scan_size (ds ++ rest) (u64 acc) true ≡ scan_size rest (u64 (decimal acc ds)) true
unfolding scan_size
scan_size-digits [] rest acc h = refl
scan_size-digits (d ∷ ds) rest acc h =
    rw (h.0, u64_step acc (d - b'0')) (scan_size-digits ds rest (acc * 10 + (d - b'0')) h.1)
  where
    u64_step : (x k : ℕ) → u64 (u64 x * 10 + k) ≡ u64 (x * 10 + k)
    u64_step x k = omega arith

scale-pow : (n x : ℕ) → scale n (u64 x) ≡ u64 (x * 1024 ^ n)
unfolding scale
scale-pow zero x = omega arith
scale-pow (suc n) x = rw (u64_step x) (
    scale-pow n (x * 1024)
    ∙ ap u64 (mul_assoc x 1024 (1024 ^ n) ∙ ap (λ k. x * k) (sym (pow_step n))))
  where
    u64_step : (y : ℕ) → u64 (u64 y * 1024) ≡ u64 (y * 1024)
    u64_step y = omega arith

    pow_step : (k : ℕ) → 1024 ^ suc k ≡ 1024 * 1024 ^ k
    pow_step k = pow-suc 1024 k ∙ mul_comm (1024 ^ k) 1024

scan-start :
    (d : ℕ) (ds rest : Text)
    → IsDigit d
    → All IsDigit ds
    → scan_size (d ∷ ds ++ rest) 0 false ≡ scan_size rest (u64 (decimal 0 (d ∷ ds))) true
unfolding scan_size
scan-start d ds rest hd hs = rw hd (scan_size-digits ds rest (0 * 10 + (d - b'0')) hs)

scan-All :
    (d : ℕ) (ds : Text)
    → IsDigit d
    → All IsDigit ds
    → scan_size (d ∷ ds) 0 false ≡ (u64 (decimal 0 (d ∷ ds)), none)
unfolding scan_size
scan-All d ds hd hs = rw append-nil at (scan-start d ds [] hd hs)

scan_size-stop :
    (c : ℕ) (rest : Text) (res : ℕ)
    → isdigit c ≡ false
    → scan_size (c ∷ rest) res true ≡ (res, some c)
unfolding scan_size
scan_size-stop c rest res h = rw h

scan_size-none :
    (c : ℕ) (rest : Text) → isdigit c ≡ false → scan_size (c ∷ rest) 0 false ≡ (0, none)
unfolding scan_size
scan_size-none c rest h = rw h

-- A text that is digits alone is their decimal number, modulo 2^64. A size modifier behind the
-- digits multiplies it by its power of 1024, modulo 2^64, and what follows the modifier is not
-- read. Any other character behind the digits makes the size 0, and so does a text that does not
-- begin with a digit.
pub size_of_text_lem :
    (d : ℕ) (ds : Text) (c : ℕ) (rest : Text)
    → IsDigit d
    → All IsDigit ds
    → isdigit c ≡ false
    → (size_of_text (d ∷ ds) ≡ decimal 0 (d ∷ ds) % 2 ^ 64)
      × ((n : ℕ)
          → sizemods c ≡ some n
          → size_of_text (d ∷ ds ++ c ∷ rest) ≡ decimal 0 (d ∷ ds) * 1024 ^ (n + 1) % 2 ^ 64)
      × (sizemods c ≡ none → size_of_text (d ∷ ds ++ c ∷ rest) ≡ 0)
      × (size_of_text (c ∷ rest) ≡ 0)
unfolding size_of_text
size_of_text_lem d ds c rest hd hs hc = (
  rw (scan-All d ds hd hs, size_of_text, scan-All d ds hd hs),
  (λ n e.
      rw (scan_to, size_of_text, e, scan_to)
        (scale-pow (suc n) (decimal 0 (d ∷ ds))
          ∙ ap (λ k. u64 (decimal 0 (d ∷ ds) * 1024 ^ k)) (omega arith))),
  (λ e. rw (scan_to, size_of_text, e)),
  rw (scan_size-none c rest hc, size_of_text, scan_size-none c rest hc),
)
  where
    scan_to : scan_size (d ∷ ds ++ c ∷ rest) 0 false ≡ (u64 (decimal 0 (d ∷ ds)), some c)
    scan_to = scan-start d ds (c ∷ rest) hd hs ∙ scan_size-stop c rest (u64 (decimal 0 (d ∷ ds))) hc
