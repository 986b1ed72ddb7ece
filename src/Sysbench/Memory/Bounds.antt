-- ===== src/Sysbench/Memory/Bounds.antt =====
-- The accesses of a request of the memory test of sb_memory.c to the buffer.
use native.Mathlib.Nat.{mod-add-div, div-mul-le_self}
use htmsql.Prelude.{
  ℕ, zero, suc, ◌+◌, ◌*◌, ◌%◌, ◌/◌, ◌<◌, ◌≤◌, ◌≡◌, subst, Bool, true, false, arith, some, List, [],
  ◌∷◌, All,
}
use htmsql.Sysbench.Memory.{
  SbMemOp, mem_op_none, mem_op_read, mem_op_write, Settings, from_to, times, accesses,
  memory_execute_request,
}

All-from_to : (n i : ℕ) → All (λ x. x < i + n) (from_to i n)
unfolding from_to
All-from_to zero i = tt
All-from_to (suc n) i = (
  omega arith,
  subst (λ m. All (λ x. x < m) (from_to (i + 1) n)) (omega arith) (All-from_to n (i + 1)),
)

All-times : (P : ℕ → Type 0) (n i : ℕ) → P i → All P (times n i)
unfolding times
All-times P zero i h = tt
All-times P (suc n) i h = (h, All-times P n i h)

All-map : {P Q : ℕ → Type 0} (l : List ℕ) → ((x : ℕ) → P x → Q x) → All P l → All Q l
All-map [] f h = tt
All-map (x ∷ l) f (h, k) = (f x h, All-map l f k)

-- The element at index `i` lies in a buffer of `b` bytes.
abbrev pub InBuffer : ℕ → ℕ → Type 0
InBuffer b i = i * 4 + 4 ≤ b

lt-InBuffer : (b i : ℕ) → i < b / 4 → InBuffer b i
lt-InBuffer b i h = let le = div-mul-le_self b 4 in omega (arith, le, h)

times-InBuffer : (b i : ℕ) → b % 4 ≡ 0 → (1 ≤ b / 4 → i < b / 4) → All (InBuffer b) (times b i)
unfolding times
times-InBuffer zero i m h = tt
times-InBuffer (suc b) i m h =
    All-times (InBuffer (suc b)) (suc b) i
      (lt-InBuffer (suc b) i (h (let e = mod-add-div (suc b) 4 in omega (arith, e, m))))

from_to-InBuffer : (b : ℕ) → All (InBuffer b) (from_to 0 (b / 4))
from_to-InBuffer b =
    All-map (from_to 0 (b / 4)) (λ i h. lt-InBuffer b i (omega (arith, h))) (All-from_to (b / 4) 0)

some_inj : {x y : List ℕ} → some x ≡ some y → x ≡ y
some_inj h = cc

accesses-InBuffer :
    (rnd : Bool) (op : SbMemOp) (b i : ℕ) {l : List ℕ}
    → b % 4 ≡ 0
    → (1 ≤ b / 4 → i < b / 4)
    → accesses rnd op b i ≡ some l
    → All (InBuffer b) l
accesses-InBuffer true mem_op_none b i m h e = cc
accesses-InBuffer true mem_op_read b i m h e =
    subst (All (InBuffer b)) (some_inj e) (times-InBuffer b i m h)
accesses-InBuffer true mem_op_write b i m h e =
    subst (All (InBuffer b)) (some_inj e) (times-InBuffer b i m h)
accesses-InBuffer false mem_op_none b i m h e = subst (All (InBuffer b)) (some_inj e) tt
accesses-InBuffer false mem_op_read b i m h e =
    subst (All (InBuffer b)) (some_inj e) (from_to-InBuffer b)
accesses-InBuffer false mem_op_write b i m h e =
    subst (All (InBuffer b)) (some_inj e) (from_to-InBuffer b)

-- When the block size is a multiple of 4 and the scaling of the random number stays below the
-- number of elements, every access of a request lies in the buffer, which has `memory_block_size`
-- bytes.
pub memory_execute_request-InBuffer :
    (o : Settings) (randnum : ℕ) {l : List ℕ}
    → ((n : ℕ) → 1 ≤ n → o.scaled randnum n < n)
    → o.memory_block_size % 4 ≡ 0
    → memory_execute_request o randnum ≡ some l
    → All (InBuffer o.memory_block_size) l
unfolding memory_execute_request
memory_execute_request-InBuffer o r h m e =
    accesses-InBuffer o.memory_access_rnd o.memory_oper o.memory_block_size _ m
      (h (o.memory_block_size / 4)) e
