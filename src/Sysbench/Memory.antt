-- ===== src/Sysbench/Memory.antt =====
-- The memory test of mysql/bench/sysbench-0.4.12/sysbench/tests/memory/sb_memory.c. An int has 4 bytes
-- and a size_t 64 bits. An access to a buffer is written as the index of its element.
pub mod Requests
pub mod Bounds
use native.Mathlib.Nat.{mod-eq_of_lt, add-zero, mul-le-mul_right, mod-add-div, div-mul-le_self}
use htmsql.Prelude.{
  ℕ, zero, suc, ◌+◌, ◌*◌, ◌%◌, ◌/◌, ◌^◌, ◌<◌, ◌≤◌, ◌≡◌, refl, subst, ap, ◌∙◌, Bool, true, false,
  if◌then◌else◌, leb, dec_lt, arith, Option, none, some, List, [], ◌∷◌, All,
}

pub data SbMemOp : Type 0 where
  mem_op_none mem_op_read mem_op_write : SbMemOp

-- The settings, and the scaling of a random number to the number of elements, a computation in
-- floating point.
pub record Settings : Type 0 where
  pub memory_block_size : ℕ
  pub memory_total_size : ℕ
  pub memory_oper : SbMemOp
  pub memory_access_rnd : Bool
  pub scaled : (randnum elements : ℕ) → ℕ

pub record Totals : Type 0 where
  pub total_ops : ℕ
  pub total_bytes : ℕ

-- `memory_get_request`: whether there is a request; its fields are settings. `total_ops` is an
-- unsigned int.
unfoldable pub memory_get_request : Settings → Totals → Totals × Bool
memory_get_request o t = if leb o.memory_total_size t.total_bytes then (t, false) else (
  record {
    total_ops = (t.total_ops + 1) % 2 ^ 32;
    total_bytes = (t.total_bytes + o.memory_block_size) % 2 ^ 64;
  },
  true,
)

-- The elements from `buf` on that the loops of a sequential access go through.
unfoldable pub from_to : ℕ → ℕ → List ℕ
from_to buf zero = []
from_to buf (suc n) = buf ∷ from_to (buf + 1) n

unfoldable pub times : ℕ → ℕ → List ℕ
times zero i = []
times (suc n) i = i ∷ times n i

-- The accesses of one request: at random all to the one element `idx`, otherwise to all in turn.
abbrev pub accesses : Bool → SbMemOp → (block_size idx : ℕ) → Option (List ℕ)
accesses true mem_op_none block idx = none
accesses true mem_op_read block idx = some (times block idx)
accesses true mem_op_write block idx = some (times block idx)
accesses false mem_op_none block idx = some []
accesses false mem_op_read block idx = some (from_to 0 (block / 4))
accesses false mem_op_write block idx = some (from_to 0 (block / 4))

-- `memory_execute_request`: the elements of the buffer that are read or written, in their order, or
-- `none` where it returns 1. `randnum` is the value of `sb_rnd()`.
unfoldable pub memory_execute_request : Settings → ℕ → Option (List ℕ)
memory_execute_request o randnum =
    accesses o.memory_access_rnd o.memory_oper o.memory_block_size
      (o.scaled randnum (o.memory_block_size / 4))

abbrev pub resume : Totals × Bool → (Totals → Option Totals) → Option Totals
resume (t, true) again = again t
resume (t, false) again = some t

-- Calls up to the first one that hands out nothing, with fuel for their number.
unfoldable pub memory_requests : Settings → ℕ → Totals → Option Totals
memory_requests o zero t = none
memory_requests o (suc n) t = resume (memory_get_request o t) (memory_requests o n)
