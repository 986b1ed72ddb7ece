-- ===== src/Prelude/Sums.antt =====
-- Sums over threads or accounts
use htmsql.Prelude.{
  ℕ, zero, suc, ◌+◌, ◌<◌, ◌≤◌, ◌≡◌, refl, ap, false, inl, inr, Bool-cases, arith, ◌==◌, update,
}

-- The sum of `g (f 0)` to `g (f (n - 1))`.
unfoldable pub total {ℓ} : {A : Type ℓ} → (A → ℕ) → (ℕ → A) → ℕ → ℕ
total g f zero = 0
total g f (suc n) = total g f n + g (f n)

module _ {ℓ} {A : Type ℓ} (g : A → ℕ) (f : ℕ → A) (i : ℕ) (v : A) where
  total-update_out : (n : ℕ) → n ≤ i → total g (update f i v) n ≡ total g f n
  unfolding total
  total-update_out zero le = refl
  total-update_out (suc n) le =
      let other : (i == n) ≡ false = ground arith in rw (total-update_out n (omega arith), other)

  -- One summand is changed.
  pub total-update : (n : ℕ) → i < n → total g (update f i v) n + g (f i) ≡ total g f n + g v
  unfolding total
  total-update zero lt = absurd (omega arith)
  total-update (suc n) lt = elim (Bool-cases (i == n)) [
    | inl last ↦
        let same : g (f i) ≡ g (f n) = ap (λ j. g (f j)) (ground arith) in
        rw last (omega (arith, total-update_out n (ground arith), same))
    | inr inner ↦ rw inner (omega (arith, total-update n (ground arith)))
  ]

-- Summands of at most 1
pub total-le {ℓ} :
    {A : Type ℓ} (g : A → ℕ) (f : ℕ → A) (n : ℕ) → ((a : A) → g a ≤ 1) → total g f n ≤ n
unfolding total
total-le g f zero small = omega arith
total-le g f (suc n) small = omega (arith, total-le g f n small, small (f n))

pub total-zero {ℓ} :
    {A : Type ℓ} (g : A → ℕ) (f : ℕ → A) (n : ℕ) → ((i : ℕ) → i < n → g (f i) ≡ 0) → total g f n ≡ 0
unfolding total
total-zero g f zero none_counts = refl
total-zero g f (suc n) none_counts = omega (
  arith,
  total-zero g f n (λ i lt. none_counts i (omega (arith, lt))),
  none_counts n (omega arith),
)
