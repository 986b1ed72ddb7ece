-- ===== src/Sysbench/Fileio/Random.antt =====
-- The generator of random requests, `file_get_rnd_request` of sb_fileio.c.
use htmsql.Prelude.{
  ℕ, zero, suc, ◌+◌, ◌-◌, ◌*◌, ◌%◌, ◌/◌, ◌<◌, ◌≤◌, ◌≡◌, refl, sym, ap, subst, ◌∙◌, Bool, true,
  false, ◌&&◌, ◌||◌, if◌then◌else◌, ◌==◌, ltb, arith, lt→ltb,
}
use htmsql.Sysbench.Fileio.{
  Settings, Counters, SbFileRequest, SbRequest, type_file, type_null, SbFileOp, op_read, op_write,
  FileTestMode, mode_read, mode_write, mode_rewrite, mode_rnd_read, mode_rnd_write, mode_rnd_rw,
  mode_mixed, fsync_request, is_write, file_get_seq_request,
}
use native.Mathlib.Nat.{
  mod-lt, mod-add-div, mul-div-mul_left, mul-add, mul_assoc, mul-pos, mul-le-mul_left,
  div-lt_iff_lt-mul, mul-mod_right,
}

-- The mode of one request: the combined test reads while the ratio is below `file_rw_ratio`.
abbrev pub request_mode : Settings → Counters → FileTestMode → FileTestMode
request_mode o c mode_rnd_rw =
    if o.below_ratio (c.real_read_ops + 1) (c.real_write_ops + 1)
    then mode_rnd_read
    else mode_rnd_write
request_mode o c m = m

abbrev pub rnd_operation : FileTestMode → SbFileOp
rnd_operation mode_rnd_write = op_write
rnd_operation _ = op_read

-- The modes in which the files are synced in the end
abbrev pub syncs_at_end : FileTestMode → Bool
syncs_at_end mode_rnd_write = true
syncs_at_end mode_rnd_rw = true
syncs_at_end mode_mixed = true
syncs_at_end _ = false

abbrev pub rnd_end : Settings → Counters → Counters × SbRequest
rnd_end o c =
    if o.file_fsync_end && syncs_at_end o.test_mode && ltb c.fsynced_file2 o.num_files
    then (
      record c { fsynced_file2 = c.fsynced_file2 + 1 },
      type_file (fsync_request c.fsynced_file2),
    )
    else (c, type_null)

-- The counter of files goes back to 0 with the last file, and the data is clean then.
abbrev pub rnd_fsync : Settings → Counters → Counters × SbRequest
rnd_fsync o c =
    if c.fsynced_file + 1 == o.num_files
    then (record c { fsynced_file = 0; is_dirty = false }, type_file (fsync_request c.fsynced_file))
    else (record c { fsynced_file = c.fsynced_file + 1 }, type_file (fsync_request c.fsynced_file))

abbrev pub aligned : ℕ → ℕ → ℕ
aligned b tmppos = tmppos - tmppos % b

abbrev pub rnd_request : Settings → Counters → ℕ → SbFileRequest
rnd_request o c randnum =
    let tmppos = aligned o.file_block_size (o.scaled randnum o.total_size) in
    record {
      file_id = tmppos / o.file_size;
      pos = tmppos % o.file_size;
      size = o.file_block_size;
      operation = rnd_operation (request_mode o c o.test_mode);
    }

abbrev pub rnd_data : Settings → Counters → ℕ → Counters × SbRequest
rnd_data o c randnum = (
  record c {
    req_performed = (c.req_performed + 1) % 4294967296;
    is_dirty = is_write (rnd_operation (request_mode o c o.test_mode)) || c.is_dirty;
  },
  type_file (rnd_request o c randnum),
)

-- `file_get_rnd_request`, with the value of `sb_rnd()`
unfoldable pub file_get_rnd_request : Settings → Counters → ℕ → Counters × SbRequest
file_get_rnd_request o c randnum =
    if (c.req_performed == o.max_requests) && ltb 0 o.max_requests
    then rnd_end o c
    else if ltb 0 o.file_fsync_freq && c.is_dirty && (c.req_performed % o.file_fsync_freq == 0)
    then rnd_fsync o c
    else rnd_data o c randnum

-- `file_get_request`
unfoldable pub file_get_request : Settings → Counters → ℕ → Counters × SbRequest
file_get_request o c randnum = elim o.test_mode [
  | mode_write ↦ file_get_seq_request o c
  | mode_rewrite ↦ file_get_seq_request o c
  | mode_read ↦ file_get_seq_request o c
  | _ ↦ file_get_rnd_request o c randnum
]

-- The files hold whole blocks, they make up the total size, and the scaling of a random number stays
-- below the total size.
pub record IsBlocked (o : Settings) : Type 0 where
  pub blocks : ℕ
  pub positive : 1 ≤ o.file_block_size
  pub some_block : 1 ≤ blocks
  pub whole : o.file_size ≡ o.file_block_size * blocks
  pub total : o.total_size ≡ o.num_files * o.file_size
  pub below : (n : ℕ) → n < 1073741823 → o.scaled n o.total_size < o.total_size

-- The remainder of a multiple of `b` by another one is `b` times the remainder of the factors.
mul-mod-mul : (b x k : ℕ) → 1 ≤ b → b * x % (b * k) ≡ b * (x % k)
mul-mod-mul b x k h =
    let a = mod-add-div (b * x) (b * k) in
    let q = mul-div-mul_left {m = b} x k h in
    let e : b * x % (b * k) + b * k * (x / k) ≡ b * x =
      subst (λ y. b * x % (b * k) + b * k * y ≡ b * x) q a in
    let split = mul-add b (x % k) (k * (x / k)) in
    let whole = ap (λ y. b * y) (mod-add-div x k) in
    omega (arith, e, split, whole, mul_assoc b k (x / k))

aligned-mul : (b t : ℕ) → aligned b t ≡ b * (t / b)
aligned-mul b t = omega (arith, mod-add-div t b)

-- When the files hold whole blocks and make up the total size, and the scaling of a random number
-- stays below the total size, every random request for data lies in one file and starts at a
-- multiple of the block size.
pub rnd_request-aligned :
    {o : Settings} (c : Counters) (randnum : ℕ)
    → IsBlocked o
    → randnum < 1073741823
    → let r = rnd_request o c randnum in
      (r.file_id < o.num_files) × (r.pos + r.size ≤ o.file_size) × (r.pos % o.file_block_size ≡ 0)
rnd_request-aligned {o} c n w h =
    let b = o.file_block_size in
    let t = o.scaled n o.total_size in
    let nonempty : 0 < o.file_size = rw w.whole (mul-pos w.positive w.some_block) in
    let pos : aligned b t % o.file_size ≡ b * (t / b % w.blocks) =
      rw (aligned-mul b t, w.whole) (mul-mod-mul b (t / b) w.blocks w.positive) in
    let next : b * (t / b % w.blocks + 1) ≤ b * w.blocks =
      mul-le-mul_left b (omega (arith, mod-lt (t / b) w.some_block)) in
    (
      (div-lt_iff_lt-mul {k = o.file_size} {x = aligned b t} {y = o.num_files} nonempty).1
          (omega (arith, w.below n h, w.total)),
      omega (arith, pos, next, w.whole),
      rw pos (mul-mod_right b (t / b % w.blocks)),
    )

-- The request and the state behind `n` calls, once the number of requests is reached
unfoldable pub calls : Settings → (ℕ → ℕ) → ℕ → Counters → Counters
calls o rnd zero c = c
calls o rnd (suc n) c = let d = calls o rnd n c in (file_get_rnd_request o d (rnd n)).0

-- The number of requests is reached, and the files are to be synced.
pub record IsOver (o : Settings) (c : Counters) : Type 0 where
  pub performed : c.req_performed ≡ o.max_requests
  pub limited : 1 ≤ o.max_requests
  pub asked : o.file_fsync_end ≡ true
  pub mode : syncs_at_end o.test_mode ≡ true

over-end :
    (o : Settings) (c : Counters) (n : ℕ) → IsOver o c → file_get_rnd_request o c n ≡ rnd_end o c
unfolding file_get_rnd_request
over-end o c n w = ground (arith, w.performed, w.limited)

over-sync :
    (o : Settings) (c : Counters) (n : ℕ)
    → IsOver o c
    → c.fsynced_file2 < o.num_files
    → file_get_rnd_request o c n ≡ (
      record c { fsynced_file2 = c.fsynced_file2 + 1 },
      type_file (fsync_request c.fsynced_file2),
    )
over-sync o c n w h = over-end o c n w ∙ rw (w.asked, w.mode, lt→ltb _ _ h) refl

over-null :
    (o : Settings) (c : Counters) (n : ℕ)
    → IsOver o c
    → o.num_files ≤ c.fsynced_file2
    → file_get_rnd_request o c n ≡ (c, type_null)
over-null o c n w h =
    let k : ltb c.fsynced_file2 o.num_files ≡ false = ground arith in
    over-end o c n w ∙ rw (w.asked, w.mode, k) refl

calls-IsOver :
    (o : Settings) (rnd : ℕ → ℕ) (n : ℕ) (c : Counters)
    → IsOver o c
    → c.fsynced_file2 ≡ 0
    → n ≤ o.num_files
    → let d = calls o rnd n c in IsOver o d × (d.fsynced_file2 ≡ n)
unfolding calls
calls-IsOver o rnd zero c w e h = (w, e)
calls-IsOver o rnd (suc n) c w e h =
    let (v, at) = calls-IsOver o rnd n c w e (omega (arith, h)) in
    let d = calls o rnd n c in
    let next = over-sync o d (rnd n) v (omega (arith, at, h)) in
    subst (λ q. IsOver o q.0 × (q.0.fsynced_file2 ≡ suc n)) (sym next)
      (
        record { performed = v.performed; limited = v.limited; asked = v.asked; mode = v.mode },
        omega (arith, at),
      )

-- Once the number of requests is reached, in a mode that writes, with `file-fsync-end` on and no
-- file synced for that yet, the next calls sync each file once, in the order of their numbers, and
-- the call after those hands out nothing and changes nothing.
pub rnd_syncs_all :
    {o : Settings} {c : Counters} (rnd : ℕ → ℕ)
    → IsOver o c
    → c.fsynced_file2 ≡ 0
    → ((n : ℕ)
        → n < o.num_files
        → (file_get_rnd_request o (calls o rnd n c) (rnd n)).1 ≡ type_file (fsync_request n))
      × ((file_get_rnd_request o (calls o rnd o.num_files c) (rnd o.num_files))
          ≡ (calls o rnd o.num_files c, type_null))
rnd_syncs_all {o} {c} rnd w e = (
  (λ n h.
      let (v, at) = calls-IsOver o rnd n c w e (omega (arith, h)) in
      ap (λ q. q.1) (over-sync o (calls o rnd n c) (rnd n) v (omega (arith, at, h)))
      ∙ ap (λ k. type_file (fsync_request k)) at),
  (let (v, at) = calls-IsOver o rnd o.num_files c w e (omega arith) in
      over-null o (calls o rnd o.num_files c) (rnd o.num_files) v (omega (arith, at))),
)
