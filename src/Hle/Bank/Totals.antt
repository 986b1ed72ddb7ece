-- ===== src/Hle/Bank/Totals.antt =====
-- Sums over accounts and threads. An integer is the difference of its credit and its debt, of which
-- one is 0.
use htmsql.Prelude.{ℕ, zero, suc, ◌+◌, ◌≡◌, refl, ap, arith}
use htmsql.Prelude.Sums.{total}
use htmsql.Hle.Bank.{ℤ, pos, negsuc, add_nat, sub_nat, ◌+ℤ◌, sum_of}

abbrev pub credit : ℤ → ℕ
credit (pos n) = n
credit (negsuc n) = 0

abbrev pub debt : ℤ → ℕ
debt (pos n) = 0
debt (negsuc n) = suc n

pub credit-add_nat :
    (z : ℤ) (n : ℕ) → credit (add_nat z n) + debt z ≡ credit z + n + debt (add_nat z n)
unfolding add_nat
credit-add_nat (pos m) n = ground arith
credit-add_nat (negsuc m) n = ground arith

pub credit-sub_nat :
    (z : ℤ) (n : ℕ) → credit (sub_nat z n) + n + debt z ≡ credit z + debt (sub_nat z n)
unfolding sub_nat
credit-sub_nat (pos m) n = ground arith
credit-sub_nat (negsuc m) n = ground arith

credit-+ℤ : (a b : ℤ) → credit (a +ℤ b) + debt a + debt b ≡ credit a + credit b + debt (a +ℤ b)
unfolding ◌+ℤ◌
credit-+ℤ a (pos n) = omega (arith, credit-add_nat a n)
credit-+ℤ a (negsuc n) = omega (arith, credit-sub_nat a (suc n))

-- The sum of integers has the credits and the debts of them all.
pub credit-sum_of :
    (b : ℕ → ℤ) (n : ℕ)
    → credit (sum_of b n) + total debt b n ≡ total credit b n + debt (sum_of b n)
unfolding sum_of total
credit-sum_of b zero = refl
credit-sum_of b (suc n) = omega (arith, credit-sum_of b n, credit-+ℤ (sum_of b n) (b n))

-- An integer whose credit exceeds its debt by `n` is `n`.
pub pos_of_credit : (z : ℤ) (n : ℕ) → credit z ≡ debt z + n → z ≡ pos n
pos_of_credit (pos m) n eq = ap pos (omega arith)
pos_of_credit (negsuc m) n eq = absurd (omega arith)
