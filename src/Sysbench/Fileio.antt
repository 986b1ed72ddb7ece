-- ===== src/Sysbench/Fileio.antt =====
-- The fileio test of mysql/bench/sysbench-0.4.12/sysbench/tests/fileio/sb_fileio.c: the generators of
-- requests and their execution. The request loop of one thread runs them, so their calls follow one
-- another. Positions and sizes are long long and are not bounded here: a signed overflow has no
-- meaning in C. Counters that the theorems keep at `num_files` or below have no wrap-around either.
pub mod Sequential
pub mod Handed
pub mod Totals
pub mod Random
pub mod Execute
pub mod Blocks
pub mod Create
pub mod Words
pub mod Arguments
use htmsql.Prelude.{
  ℕ, ◌+◌, ◌-◌, ◌*◌, ◌%◌, ◌/◌, ◌≡◌, Bool, true, false, not, ◌&&◌, ◌||◌, if◌then◌else◌, ◌==◌, leb,
  ltb,
}

-- `file_test_mode_t`
pub data FileTestMode : Type 0 where
  mode_read mode_write mode_rewrite mode_rnd_read mode_rnd_write mode_rnd_rw mode_mixed :
      FileTestMode

-- `sb_file_op_t`
pub data SbFileOp : Type 0 where
  op_null op_read op_write op_fsync : SbFileOp

-- The static variables that `parse_arguments` sets, and two fields of `sb_globals`. The test whether
-- the ratio of reads to writes is below `file_rw_ratio` and the scaling of a random number to the
-- total size are computed in floating point, so they are functions here.
pub record Settings : Type 0 where
  pub num_files : ℕ
  pub total_size : ℕ
  pub file_size : ℕ
  pub file_block_size : ℕ
  pub file_fsync_freq : ℕ
  pub file_fsync_all : Bool
  pub file_fsync_end : Bool
  pub file_merged_requests : ℕ
  pub file_max_request_size : ℕ
  pub test_mode : FileTestMode
  pub below_ratio : (reads writes : ℕ) → Bool
  pub scaled : (randnum total : ℕ) → ℕ
  pub validate : Bool
  pub max_requests : ℕ

-- `sb_file_request_t`
pub record SbFileRequest : Type 0 where
  pub file_id : ℕ
  pub pos : ℕ
  pub size : ℕ
  pub operation : SbFileOp

-- `sb_request_t` of this test: SB_REQ_TYPE_FILE or SB_REQ_TYPE_NULL
pub data SbRequest : Type 0 where
  type_file : SbFileRequest → SbRequest
  type_null : SbRequest

-- The static variables that the requests change. `warnings` counts the calls of `check_seq_req` that
-- log a warning.
pub record Counters : Type 0 where
  pub position : ℕ
  pub current_file : ℕ
  pub fsynced_file : ℕ
  pub fsynced_file2 : ℕ
  pub is_dirty : Bool
  pub read_ops : ℕ
  pub real_read_ops : ℕ
  pub write_ops : ℕ
  pub real_write_ops : ℕ
  pub other_ops : ℕ
  pub req_performed : ℕ
  pub bytes_read : ℕ
  pub bytes_written : ℕ
  pub prev_req : SbFileRequest
  pub warnings : ℕ

unfoldable pub clear_stats : Counters
clear_stats = record {
  position = 0;
  current_file = 0;
  fsynced_file = 0;
  fsynced_file2 = 0;
  is_dirty = false;
  read_ops = 0;
  real_read_ops = 0;
  write_ops = 0;
  real_write_ops = 0;
  other_ops = 0;
  req_performed = 0;
  bytes_read = 0;
  bytes_written = 0;
  prev_req = record { file_id = 0; pos = 0; size = 0; operation = op_null };
  warnings = 0;
}

abbrev pub is_null_or_fsync : SbFileOp → Bool
is_null_or_fsync op_null = true
is_null_or_fsync op_fsync = true
is_null_or_fsync op_read = false
is_null_or_fsync op_write = false

abbrev pub is_null : SbFileOp → Bool
is_null op_null = true
is_null op_fsync = false
is_null op_read = false
is_null op_write = false

abbrev pub is_write : SbFileOp → Bool
is_write op_write = true
is_write op_null = false
is_write op_fsync = false
is_write op_read = false

-- Unsigned subtraction of 32 bits
abbrev pub sub_unsigned : ℕ → ℕ → ℕ
sub_unsigned a b = (a + 4294967296 - b) % 4294967296

-- `check_seq_req` with the size of a file: whether it logs no warning. The difference of the
-- positions is signed, so no size is equal to a negative one.
unfoldable pub check_seq_req : ℕ → SbFileRequest → SbFileRequest → Bool
check_seq_req file_size prev r =
    if is_null_or_fsync r.operation
    then true
    else if is_null prev.operation
    then true
    else if ltb 1 (sub_unsigned r.file_id prev.file_id)
    then false
    else if r.file_id == prev.file_id
    then r.pos == prev.pos + prev.size
    else (prev.pos + prev.size == file_size) && (r.pos == 0)

abbrev pub validated : Settings → Counters → SbFileRequest → Counters
validated o c r =
    if o.validate
    then record c {
      prev_req = r;
      warnings = if check_seq_req o.file_size c.prev_req r then c.warnings else c.warnings + 1;
    }
    else c

abbrev pub seq_operation : FileTestMode → SbFileOp
seq_operation mode_write = op_write
seq_operation mode_rewrite = op_write
seq_operation _ = op_read

-- The size of a request. The difference is signed in C; here it stops at 0.
abbrev pub seq_size : Settings → ℕ → ℕ
seq_size o position =
    if ltb 0 o.file_merged_requests
    then if leb (position + o.file_max_request_size) o.file_size
      then o.file_max_request_size
      else o.file_size - position
    else o.file_block_size

-- The request before the pointers are advanced, and the one for an fsync in the end.
abbrev pub seq_request : Settings → Counters → SbFileRequest
seq_request o c = record {
  file_id = c.current_file;
  pos = c.position;
  size = seq_size o c.position;
  operation = seq_operation o.test_mode;
}

abbrev pub fsync_request : ℕ → SbFileRequest
fsync_request n = record { file_id = n; pos = 0; size = 0; operation = op_fsync }

-- The branch in which all files are done.
abbrev pub seq_stopped : Settings → Counters → Counters × SbRequest
seq_stopped o c =
    if o.file_fsync_end && is_write (seq_operation o.test_mode) && ltb c.fsynced_file o.num_files
    then (
      validated o (record c { fsynced_file = c.fsynced_file + 1 }) (fsync_request c.fsynced_file),
      type_file (fsync_request c.fsynced_file),
    )
    else (validated o c (seq_request o c), type_null)

-- The branch in which they are not; `position'` is the position behind the request.
abbrev pub seq_advanced : Settings → Counters → ℕ → Counters × SbRequest
seq_advanced o c position' =
    if position' == o.file_size
    then (
      validated o (record c { position = 0; current_file = c.current_file + 1 }) (seq_request o c),
      type_file (seq_request o c),
    )
    else (
      validated o (record c { position = position' }) (seq_request o c),
      type_file (seq_request o c),
    )

unfoldable pub file_get_seq_request : Settings → Counters → Counters × SbRequest
file_get_seq_request o c =
    if c.current_file == o.num_files
    then seq_stopped o c
    else seq_advanced o c (c.position + (seq_request o c).size)
