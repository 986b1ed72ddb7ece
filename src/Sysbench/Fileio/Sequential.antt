-- ===== src/Sysbench/Fileio/Sequential.antt =====
-- One call of `file_get_seq_request` with merged requests: what it keeps, and what it hands out.
use htmsql.Prelude.{
  ℕ, ◌+◌, ◌*◌, ◌<◌, ◌≤◌, ◌≡◌, ◌≢◌, refl, Bool, true, false, ◌&&◌, ◌==◌, ℕ_discrete, ltb, arith,
  lt→ltb, Bool-cases, ◌⊎◌, inl, inr,
}
use htmsql.Sysbench.Fileio.{
  Settings, Counters, SbFileRequest, type_file, type_null, op_null, op_write, validated,
  seq_operation, seq_size, seq_request, fsync_request, seq_advanced, file_get_seq_request, is_write,
}

-- What `parse_arguments` leaves behind when it accepts a positive `file-merged-requests`.
pub record IsMerged (o : Settings) : Type 0 where
  pub some_files : 1 ≤ o.num_files
  pub few_files : o.num_files < 4294967296
  pub positive : 1 ≤ o.file_max_request_size
  pub not_empty : 1 ≤ o.file_size
  pub merged : 1 ≤ o.file_merged_requests

-- Where the sweep over the files stands, and what the last data request was.
pub record IsSweep (o : Settings) (c : Counters) : Type 0 where
  pub file : c.current_file ≤ o.num_files
  pub inside : c.position < o.file_size
  pub stopped : c.current_file ≡ o.num_files → c.position ≡ 0
  pub synced : c.fsynced_file ≤ o.num_files
  pub started : c.current_file ≢ o.num_files → c.fsynced_file ≡ 0

-- The request lies in the files, and it starts where the counters stand.
pub record IsNext (o : Settings) (c : Counters) (r : SbFileRequest) : Type 0 where
  pub id : r.file_id ≡ c.current_file
  pub at : r.pos ≡ c.position
  pub some_file : r.file_id < o.num_files
  pub nonzero : 1 ≤ r.size
  pub fits : r.pos + r.size ≤ o.file_size
  pub bounded : r.size ≤ o.file_max_request_size

false_right : (b : Bool) → (b && false) ≡ false
false_right true = refl
false_right false = refl

if_eq : {a b : ℕ} → a ≡ b → (a == b) ≡ true
if_eq h = ground arith

if_ne : {a b : ℕ} → a ≢ b → (a == b) ≡ false
if_ne h = ground arith

pub seq_size-bounds :
    (o : Settings) (p : ℕ)
    → IsMerged o
    → p < o.file_size
    → (1 ≤ seq_size o p)
      × (p + seq_size o p ≤ o.file_size)
      × (seq_size o p ≤ o.file_max_request_size)
seq_size-bounds o p m h = (
  ground (arith, m.positive, m.merged),
  ground (arith, m.positive, m.merged),
  ground (arith, m.positive, m.merged),
)

-- The bytes of the files in front of the place where the counters stand.
abbrev pub swept : Settings → Counters → ℕ
swept o c = c.current_file * o.file_size + c.position

-- The last data request ends where the next one starts, in the same file or at the start of the next.
pub data IsPrev (o : Settings) (c : Counters) : Type 0 where
  none_yet : c.prev_req.operation ≡ op_null → IsPrev o c
  same_file :
      c.prev_req.file_id ≡ c.current_file
      → c.prev_req.pos + c.prev_req.size ≡ c.position
      → IsPrev o c
  new_file :
      c.prev_req.file_id + 1 ≡ c.current_file
      → c.prev_req.pos + c.prev_req.size ≡ o.file_size
      → c.position ≡ 0
      → IsPrev o c

pub seq_advanced-full :
    (o : Settings) (c : Counters) (p : ℕ)
    → p ≡ o.file_size
    → let d = (seq_advanced o c p).0 in (d.current_file ≡ c.current_file + 1) × (d.position ≡ 0)
seq_advanced-full o c p e = (ground arith, ground arith)

pub seq_advanced-part :
    (o : Settings) (c : Counters) (p : ℕ)
    → p ≢ o.file_size
    → let d = (seq_advanced o c p).0 in (d.current_file ≡ c.current_file) × (d.position ≡ p)
seq_advanced-part o c p e = (ground arith, ground arith)

seq_advanced-at :
    (o : Settings) (c : Counters) (p : ℕ)
    → swept o (seq_advanced o c p).0 ≡ c.current_file * o.file_size + p
seq_advanced-at o c p = elim (ℕ_discrete p o.file_size) [
  | yes e ↦ let (a, b) = seq_advanced-full o c p e in rw (a, b) (omega (arith, e))
  | no e ↦ let (a, b) = seq_advanced-part o c p e in rw (a, b)
]

module _ {o : Settings} {c : Counters} (m : IsMerged o) (w : IsSweep o c) where
  seq_request-IsNext : c.current_file ≢ o.num_files → IsNext o c (seq_request o c)
  seq_request-IsNext h =
      let (some_size, fits, bounded) = seq_size-bounds o c.position m w.inside in
      record {
        id = refl;
        at = refl;
        some_file = ground (arith, w.file);
        nonzero = some_size;
        fits = fits;
        bounded = bounded;
      }

  seq_advanced-IsSweep :
      c.current_file ≢ o.num_files
      → IsSweep o (seq_advanced o c (c.position + (seq_request o c).size)).0
  seq_advanced-IsSweep h =
      let (some_size, fits, bounded) = seq_size-bounds o c.position m w.inside in
      record {
        file = ground (arith, w.file);
        inside = ground (arith, m.not_empty);
        stopped = ground (arith, w.file);
        synced = ground (arith, w.synced);
        started = ground (arith, w.started);
      }

  seq_advanced-swept :
      c.current_file ≢ o.num_files
      → swept o (seq_advanced o c (c.position + (seq_request o c).size)).0
        ≡ swept o c + (seq_request o c).size
  seq_advanced-swept h =
      let e = seq_advanced-at o c (c.position + (seq_request o c).size) in omega (arith, e)

pub running-def :
    (o : Settings) (c : Counters)
    → c.current_file ≢ o.num_files
    → file_get_seq_request o c ≡ seq_advanced o c (c.position + (seq_request o c).size)
unfolding file_get_seq_request
running-def o c h = rw (if_ne h) refl

seq_advanced-type :
    (o : Settings) (c : Counters) (p : ℕ) → (seq_advanced o c p).1 ≡ type_file (seq_request o c)
seq_advanced-type o c p = elim (Bool-cases (p == o.file_size)) [
  | inl e ↦ rw e refl
  | inr e ↦ rw e refl
]

-- With merged requests, as long as a sweep has a file left, a call hands out the data request that
-- starts where the counters stand, which is not empty and lies in its file, and moves the counters
-- on by its size.
pub running :
    {o : Settings} {c : Counters}
    → IsMerged o
    → IsSweep o c
    → c.current_file ≢ o.num_files
    → let res = file_get_seq_request o c in
      (res.1 ≡ type_file (seq_request o c))
      × IsNext o c (seq_request o c)
      × (swept o res.0 ≡ swept o c + (seq_request o c).size)
      × IsSweep o res.0
running {o} {c} m w h = rw (running-def o c h) (
  seq_advanced-type o c _,
  seq_request-IsNext m w h,
  seq_advanced-swept m w h,
  seq_advanced-IsSweep m w h,
)

-- Once all files are done, a call hands out the next fsync request if there is one to come, and
-- then none.
pub stopped_sync :
    (o : Settings) (c : Counters)
    → c.current_file ≡ o.num_files
    → c.fsynced_file < o.num_files
    → o.file_fsync_end ≡ true
    → seq_operation o.test_mode ≡ op_write
    → file_get_seq_request o c ≡ (
      validated o (record c { fsynced_file = c.fsynced_file + 1 }) (fsync_request c.fsynced_file),
      type_file (fsync_request c.fsynced_file),
    )
unfolding file_get_seq_request
stopped_sync o c e h f g = rw (if_eq e, f, g, lt→ltb _ _ h) refl

pub stopped_null :
    (o : Settings) (c : Counters)
    → c.current_file ≡ o.num_files
    → (o.file_fsync_end && is_write (seq_operation o.test_mode)) ≡ false
      ⊎ o.num_files ≤ c.fsynced_file
    → file_get_seq_request o c ≡ (validated o c (seq_request o c), type_null)
unfolding file_get_seq_request
stopped_null o c e (inl h) = rw (if_eq e, h) refl
stopped_null o c e (inr h) =
    let k : ltb c.fsynced_file o.num_files ≡ false = ground arith in
    rw (if_eq e, k, false_right) refl

-- What a call leaves as it is while there is a file left.
pub record SameCounts (c d : Counters) : Type 0 where
  pub bytes_read : d.bytes_read ≡ c.bytes_read
  pub bytes_written : d.bytes_written ≡ c.bytes_written
  pub other_ops : d.other_ops ≡ c.other_ops
  pub fsynced_file : d.fsynced_file ≡ c.fsynced_file

seq_advanced-SameCounts :
    (o : Settings) (c : Counters) (p : ℕ) → SameCounts c (seq_advanced o c p).0
seq_advanced-SameCounts o c p = record {
  bytes_read = ground arith;
  bytes_written = ground arith;
  other_ops = ground arith;
  fsynced_file = ground arith;
}

pub running-SameCounts :
    (o : Settings) (c : Counters)
    → c.current_file ≢ o.num_files
    → SameCounts c (file_get_seq_request o c).0
running-SameCounts o c h = rw (running-def o c h) (seq_advanced-SameCounts o c _)
