-- ===== src/Sysbench/Fileio/Execute.antt =====
-- `file_execute_request` of sb_fileio.c.
use htmsql.Prelude.{
  ℕ, ◌+◌, ◌%◌, ◌^◌, ◌<◌, ◌≤◌, ◌≡◌, ◌↔◌, Bool, not, ◌&&◌, if◌then◌else◌, leb, ltb, arith,
}
use htmsql.Sysbench.Fileio.{
  Settings, Counters, SbFileRequest, SbFileOp, op_null, op_read, op_write, op_fsync,
}

-- What the operating system answers: whether all bytes of a request were written or read, whether a
-- file was synced, and whether the block that was read is valid.
pub record FileSystem : Type 0 where
  pub pwrite : SbFileRequest → Bool
  pub pread : SbFileRequest → Bool
  pub fsync : ℕ → Bool
  pub is_valid : SbFileRequest → Bool

-- The array of file descriptors is read outside its bounds; 1 is returned; 0 is returned.
pub data Outcome : Type 0 where
  out_of_bounds : Outcome
  failed : Outcome
  succeeded : Counters → Outcome

-- Additions to the counters of bytes, which are unsigned long long
abbrev pub add_bytes : ℕ → ℕ → ℕ
add_bytes a b = (a + b) % 2 ^ 64

-- The counters behind a write, a read and an fsync
abbrev pub count_write : Settings → Counters → SbFileRequest → Counters
count_write o c r = record c {
  write_ops = c.write_ops + 1;
  real_write_ops = c.real_write_ops + 1;
  bytes_written = add_bytes c.bytes_written r.size;
  other_ops = if o.file_fsync_all then c.other_ops + 1 else c.other_ops;
}

abbrev pub count_read : Counters → SbFileRequest → Counters
count_read c r = record c {
  read_ops = c.read_ops + 1;
  real_read_ops = c.real_read_ops + 1;
  bytes_read = add_bytes c.bytes_read r.size;
}

abbrev pub count_fsync : Counters → Counters
count_fsync c = record c { other_ops = c.other_ops + 1 }

abbrev pub execute_write : Settings → FileSystem → Counters → SbFileRequest → Outcome
execute_write o f c r =
    if not (f.pwrite r)
    then failed
    else if o.file_fsync_all && not (f.fsync r.file_id)
    then failed
    else succeeded (count_write o c r)

abbrev pub execute_read : Settings → FileSystem → Counters → SbFileRequest → Outcome
execute_read o f c r =
    if not (f.pread r)
    then failed
    else if o.validate && not (f.is_valid r)
    then failed
    else succeeded (count_read c r)

abbrev pub execute_fsync : Settings → FileSystem → Counters → SbFileRequest → Outcome
execute_fsync o f c r =
    if o.file_fsync_all
    then succeeded c
    else if not (f.fsync r.file_id)
    then failed
    else succeeded (count_fsync c)

abbrev pub execute_operation : Settings → FileSystem → Counters → SbFileRequest → SbFileOp → Outcome
execute_operation o f c r op_null = failed
execute_operation o f c r op_write = execute_write o f c r
execute_operation o f c r op_read = execute_read o f c r
execute_operation o f c r op_fsync = execute_fsync o f c r

unfoldable pub file_execute_request : Settings → FileSystem → Counters → SbFileRequest → Outcome
file_execute_request o f c r =
    if ltb o.num_files r.file_id
    then failed
    else if ltb o.file_size (r.pos + r.size)
    then failed
    else if leb o.num_files r.file_id
    then out_of_bounds
    else execute_operation o f c r r.operation

-- A request in the files is executed, and no other one is.
pub data IsInFiles (o : Settings) (r : SbFileRequest) : Type 0 where
  in_files : r.file_id < o.num_files → r.pos + r.size ≤ o.file_size → IsInFiles o r

pub execute-in_files :
    (o : Settings) (f : FileSystem) (c : Counters) (r : SbFileRequest)
    → IsInFiles o r
    → file_execute_request o f c r ≡ execute_operation o f c r r.operation
unfolding file_execute_request
execute-in_files o f c r (in_files h k) = ground arith

-- The descriptors are read outside the bounds of their array exactly for a request whose file
-- number is the number of files and whose range fits in a file: the check of the file number lets
-- it through.
pub execute-out_of_bounds :
    (o : Settings) (f : FileSystem) (c : Counters) (r : SbFileRequest)
    → (file_execute_request o f c r ≡ out_of_bounds)
      ↔ ((r.file_id ≡ o.num_files) × (r.pos + r.size ≤ o.file_size))
unfolding file_execute_request
execute-out_of_bounds o f c r = ground arith
