-- ===== src/Sysbench/Memory/Requests.antt =====
-- How many requests of the memory test of sb_memory.c there are.
use native.Mathlib.Nat.{mod-eq_of_lt, add-zero, mul-le-mul_right}
use htmsql.Prelude.{
  ℕ, zero, suc, ◌+◌, ◌*◌, ◌%◌, ◌^◌, ◌<◌, ◌≤◌, ◌≡◌, refl, ap, ◌∙◌, true, false, leb, dec_lt, arith,
  none, some,
}
use htmsql.Sysbench.Memory.{Settings, Totals, memory_get_request, memory_requests}

request-more :
    (o : Settings) (t : Totals)
    → t.total_bytes < o.memory_total_size
    → memory_get_request o t ≡ (
      record {
        total_ops = (t.total_ops + 1) % 2 ^ 32;
        total_bytes = (t.total_bytes + o.memory_block_size) % 2 ^ 64;
      },
      true,
    )
unfolding memory_get_request
request-more o t h =
    let e : leb o.memory_total_size t.total_bytes ≡ false = ground arith in rw e refl

request-none :
    (o : Settings) (t : Totals)
    → o.memory_total_size ≤ t.total_bytes
    → memory_get_request o t ≡ (t, false)
unfolding memory_get_request
request-none o t h =
    let e : leb o.memory_total_size t.total_bytes ≡ true = ground arith in rw e refl

-- With a block size of 0, which `memory_init` accepts, and a total size that is not reached yet
-- and fits in 64 bits, the requests never end: no fuel is enough.
pub memory_requests-endless :
    (o : Settings) (n : ℕ) (t : Totals)
    → o.memory_block_size ≡ 0
    → t.total_bytes < o.memory_total_size
    → o.memory_total_size < 2 ^ 64
    → memory_requests o n t ≡ none
unfolding memory_requests
memory_requests-endless o zero t z h k = refl
memory_requests-endless o (suc n) t z h k =
    let same : (t.total_bytes + o.memory_block_size) % 2 ^ 64 ≡ t.total_bytes =
      rw z (ap (λ x. x % 2 ^ 64) (add-zero t.total_bytes) ∙ mod-eq_of_lt (omega (arith, h, k))) in
    rw (request-more o t h) (memory_requests-endless o n _ z (omega (arith, same, h)) k)

-- What the requests leave behind: as many bytes as blocks were handed out, which is the total size
-- and less than one block more.
pub record Drained (o : Settings) (n : ℕ) (t : Totals) : Type 0 where
  pub last : Totals
  pub ends : memory_requests o n t ≡ some last
  pub blocks : last.total_bytes ≡ last.total_ops * o.memory_block_size
  pub enough : o.memory_total_size ≤ last.total_bytes
  pub tight : last.total_bytes < o.memory_total_size + o.memory_block_size

-- The sizes fit in the counters.
pub record IsSized (o : Settings) : Type 0 where
  pub positive : 1 ≤ o.memory_block_size
  pub bytes_fit : o.memory_total_size + o.memory_block_size < 2 ^ 64
  pub ops_fit : o.memory_total_size ≤ 4294967295 * o.memory_block_size

ops-bound :
    (o : Settings) (k : ℕ)
    → IsSized o
    → k * o.memory_block_size < o.memory_total_size
    → k + 1 < 2 ^ 32
ops-bound o k w h = elim (dec_lt k 4294967295) [
  | yes l ↦ omega (arith, l)
  | no l ↦
      let le : 4294967295 * o.memory_block_size ≤ k * o.memory_block_size =
        mul-le-mul_right o.memory_block_size (omega (arith, l)) in
      absurd (omega (arith, le, h, w.ops_fit))
]

drain :
    (o : Settings) (n : ℕ) (t : Totals)
    → IsSized o
    → t.total_bytes ≡ t.total_ops * o.memory_block_size
    → t.total_bytes < o.memory_total_size + o.memory_block_size
    → o.memory_total_size ≤ t.total_bytes + n
    → Drained o (suc n) t
unfolding memory_requests
drain o zero t w e h k = record {
  last = t;
  ends = rw (request-none o t (omega (arith, k))) refl;
  blocks = e;
  enough = omega (arith, k);
  tight = h;
}
drain o (suc n) t w e h k = elim (dec_lt t.total_bytes o.memory_total_size) [
  | no l ↦ record {
    last = t;
    ends = rw (request-none o t (omega (arith, l))) refl;
    blocks = e;
    enough = omega (arith, l);
    tight = h;
  }
  | yes l ↦
      let ops : (t.total_ops + 1) % 2 ^ 32 ≡ t.total_ops + 1 =
        mod-eq_of_lt (ops-bound o t.total_ops w (omega (arith, e, l))) in
      let bytes : (t.total_bytes + o.memory_block_size) % 2 ^ 64
          ≡ t.total_bytes + o.memory_block_size =
        mod-eq_of_lt (omega (arith, l, w.bytes_fit)) in
      let rest =
        drain o n
          (record {
            total_ops = (t.total_ops + 1) % 2 ^ 32;
            total_bytes = (t.total_bytes + o.memory_block_size) % 2 ^ 64;
          })
          w (rw (ops, bytes) (omega (arith, e))) (rw bytes (omega (arith, l)))
          (rw bytes (omega (arith, k, w.positive))) in
      record {
        last = rest.last;
        ends = rw (request-more o t l) rest.ends;
        blocks = rest.blocks;
        enough = rest.enough;
        tight = rest.tight;
      }
]

-- With a positive block size, and sizes that fit in the counters, the requests come to their end:
-- the bytes handed out are then whole blocks, reach the total size and exceed it by less than one
-- block.
pub memory_requests-Drained :
    {o : Settings}
    → IsSized o
    → Drained o (suc o.memory_total_size) (record { total_ops = 0; total_bytes = 0 })
memory_requests-Drained {o} w =
    drain o o.memory_total_size _ w (omega arith) (omega (arith, w.positive)) (omega arith)
