-- ===== src/Sysbench/Cpu.antt =====
-- `cpu_execute_request` of mysql/bench/sysbench-0.4.12/sysbench/tests/cpu/sb_cpu.c. The square root in
-- floating point is an argument.
pub mod Requests
use htmsql.Prelude.{
  ℕ, zero, suc, ◌+◌, ◌-◌, ◌*◌, ◌%◌, ◌/◌, ◌<◌, ◌≤◌, ◌≡◌, ◌≢◌, ◌↔◌, subst, Bool, true, false,
  if◌then◌else◌, ◌==◌, dec_lt, arith, inl, inr, Bool-cases,
}
use native.Mathlib.Nat.{mod-add-div, mul-mod_left, mul-le-mul_left, mul-le-mul_right}

-- The inner loop: whether none of the `n` numbers from `l` on divides `c`.
unfoldable pub no_divisor : (c l n : ℕ) → Bool
no_divisor c l zero = true
no_divisor c l (suc n) = let rest = no_divisor c (l + 1) n in if c % l == 0 then false else rest

-- Whether the outer loop counts `c`; the inner one runs from 2 to `t`, the root of `c`.
abbrev pub is_counted : (sqrt : ℕ → ℕ) → ℕ → Bool
is_counted sqrt c = no_divisor c 2 (sqrt c - 1)

-- The outer loop for `k` numbers from `c` on, with the counter.
unfoldable pub count_from : (sqrt : ℕ → ℕ) → (c k n : ℕ) → ℕ
count_from sqrt c zero n = n
count_from sqrt c (suc k) n = count_from sqrt (c + 1) k (if is_counted sqrt c then n + 1 else n)

-- `cpu_execute_request`: the numbers from 3 up to `max_prime`, and the value of `n` in the end.
abbrev pub cpu_execute_request : (sqrt : ℕ → ℕ) → (max_prime : ℕ) → ℕ
cpu_execute_request sqrt max_prime = count_from sqrt 3 (max_prime - 3) 0

-- The whole part of the square root
pub record IsRoot (sqrt : ℕ → ℕ) (c : ℕ) : Type 0 where
  pub low : sqrt c * sqrt c ≤ c
  pub high : c < (sqrt c + 1) * (sqrt c + 1)

-- No number between 1 and `c` divides `c`.
abbrev pub IsPrime : ℕ → Type 0
IsPrime c = (d : ℕ) → 2 ≤ d → d < c → c % d ≢ 0

no_divisor-true : (c l n : ℕ) → no_divisor c l n ≡ true → (d : ℕ) → l ≤ d → d < l + n → c % d ≢ 0
unfolding no_divisor
no_divisor-true c l zero h d ge lt = absurd (omega (arith, ge, lt))
no_divisor-true c l (suc n) h d ge lt = elim (dec_lt l d) [
  | yes m ↦ no_divisor-true c (l + 1) n (ground (arith, h)) d (omega (arith, m)) (omega (arith, lt))
  | no m ↦ let e : d ≡ l = omega (arith, m, ge) in rw e (ground (arith, h))
]

no_divisor-false :
    (c l n : ℕ) → no_divisor c l n ≡ false → (d : ℕ) × (l ≤ d) × (d < l + n) × (c % d ≡ 0)
unfolding no_divisor
no_divisor-false c l zero h = cc
no_divisor-false c l (suc n) h = elim (Bool-cases (c % l == 0)) [
  | inl e ↦ (l, omega arith, omega arith, ground arith)
  | inr e ↦
      let (d, ge, lt, z) = no_divisor-false c (l + 1) n (ground (arith, h, e)) in
      (d, omega (arith, ge), omega (arith, lt), z)
]

-- A divisor above the root leaves a quotient that is at most the root, and it divides too.
module _ {sqrt : ℕ → ℕ} {c d : ℕ} (w : IsRoot sqrt c) (ge : 2 ≤ d) (lt : d < c)
    (z : c % d ≡ 0) where
  product : d * (c / d) ≡ c
  product = omega (arith, mod-add-div c d, z)

  quotient-divides : c % (c / d) ≡ 0
  quotient-divides = subst (λ x. x % (c / d) ≡ 0) product (mul-mod_left d (c / d))

  quotient_big : 2 ≤ c / d
  quotient_big = elim (dec_lt (c / d) 2) [
    | no n ↦ omega (arith, n)
    | yes n ↦
        let le : d * (c / d) ≤ d * 1 = mul-le-mul_left d (omega (arith, n)) in
        absurd (omega (arith, le, product, lt))
  ]

  quotient_small : sqrt c < d → c / d ≤ sqrt c
  quotient_small above = elim (dec_lt (sqrt c) (c / d)) [
    | no n ↦ omega (arith, n)
    | yes n ↦
        let one : (sqrt c + 1) * (sqrt c + 1) ≤ d * (sqrt c + 1) =
          mul-le-mul_right (sqrt c + 1) (omega (arith, above)) in
        let two : d * (sqrt c + 1) ≤ d * (c / d) = mul-le-mul_left d (omega (arith, n)) in
        absurd (omega (arith, one, two, product, w.high))
  ]

counted-IsPrime : (sqrt : ℕ → ℕ) (c : ℕ) → IsRoot sqrt c → is_counted sqrt c ≡ true → IsPrime c
counted-IsPrime sqrt c w h d ge lt z = elim (dec_lt (sqrt c) d) [
  | no n ↦ no_divisor-true c 2 (sqrt c - 1) h d ge (omega (arith, n, ge)) z
  | yes n ↦
      no_divisor-true c 2 (sqrt c - 1) h (c / d) (quotient_big w ge lt z)
        (let s = quotient_small w ge lt z n in
          let g = quotient_big w ge lt z in omega (arith, s, g))
        (quotient-divides w ge lt z)
]

-- When the square root is rounded down, a number from 3 on is counted exactly if it is a prime: it
-- is enough to try the divisors up to the root.
pub is_counted-IsPrime :
    {sqrt : ℕ → ℕ} {c : ℕ} → IsRoot sqrt c → 3 ≤ c → (is_counted sqrt c ≡ true) ↔ IsPrime c
is_counted-IsPrime {sqrt} {c} w three = (
  counted-IsPrime sqrt c w,
  (λ p. elim (Bool-cases (is_counted sqrt c)) [
    | inl e ↦ e
    | inr e ↦
        let (d, ge, lt, z) = no_divisor-false c 2 (sqrt c - 1) e in
        let sq : sqrt c * 2 ≤ sqrt c * sqrt c = mul-le-mul_left (sqrt c) (omega (arith, ge, lt)) in
        absurd (p d ge (omega (arith, ge, lt, sq, w.low)) z)
  ]),
)
