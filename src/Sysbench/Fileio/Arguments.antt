-- ===== src/Sysbench/Fileio/Arguments.antt =====
-- parse_arguments of tests/fileio/sb_fileio.c, from what the getters of sb_options.c return. An int is
-- its bits as a number. The build options of the platform and the comparison of the ratio with 0, which
-- is in floating point, are parameters.
pub mod Usable
use htmsql.Prelude.{
  ℕ, ◌+◌, ◌-◌, ◌*◌, ◌/◌, ◌%◌, ◌^◌, ◌<◌, ◌≤◌, ◌≡◌, ◌≢◌, refl, ap, sym, ◌∙◌, Bool, true, false, not,
  ◌&&◌, ◌||◌, Option, none, some, List, [], ◌∷◌, arith, if◌then◌else◌, ◌==◌, ltb, leb,
}
use htmsql.Sysbench.Text.{Text, text_eq}
use htmsql.Sysbench.Fileio.{
  FileTestMode, mode_read, mode_write, mode_rewrite, mode_rnd_read, mode_rnd_write, mode_rnd_rw,
}
use htmsql.Sysbench.Fileio.Words.{
  text_seqwr, text_seqrewr, text_seqrd, text_rndrd, text_rndwr, text_rndrw, text_sync, text_async,
  text_mmap, text_dsync, text_direct, text_fsync, text_fdatasync,
}

-- What the getters return, by the names of the options.
pub record Given : Type 0 where
  pub file_num : ℕ
  pub file_total_size : ℕ
  pub file_test_mode : Option Text
  pub file_io_mode : Option Text
  pub file_merged_requests : ℕ
  pub file_block_size : ℕ
  pub file_extra_flags : Option Text
  pub file_fsync_freq : ℕ
  pub file_fsync_all : Bool
  pub file_fsync_end : Bool
  pub file_fsync_mode : Option Text
  pub negative_ratio : Bool

-- Which macros the build defines.
pub record Build : Type 0 where
  pub have_libaio : Bool
  pub have_mmap : Bool
  pub have_fdatasync : Bool
  pub have_o_dsync : Bool
  pub have_o_direct : Bool

pub data FileIoMode : Type 0 where
  file_io_mode_sync file_io_mode_async file_io_mode_mmap : FileIoMode

pub data ExtraFlags : Type 0 where
  no_flags o_sync o_dsync o_direct : ExtraFlags

pub data FileFsyncMode : Type 0 where
  fsync_all fsync_data : FileFsyncMode

-- The static variables that are set.
pub record Arguments : Type 0 where
  pub num_files : ℕ
  pub total_size : ℕ
  pub file_size : ℕ
  pub test_mode : FileTestMode
  pub io_mode : FileIoMode
  pub merged_requests : ℕ
  pub block_size : ℕ
  pub max_request_size : ℕ
  pub extra_flags : ExtraFlags
  pub fsync_freq : ℕ
  pub fsync_all_writes : Bool
  pub fsync_end : Bool
  pub fsync_mode : FileFsyncMode

-- A return of 1, a read through NULL, an int product that has no meaning in C, or the way on.
pub data Parse (A : Type 0) : Type 0 where
  failed crashed overflowed : Parse A
  parsed : A → Parse A

infixl 5 ◌>>=◌
abbrev pub ◌>>=◌ : {A B : Type 0} → Parse A → (A → Parse B) → Parse B
failed >>= k = failed
crashed >>= k = crashed
overflowed >>= k = overflowed
parsed a >>= k = k a

abbrev pub need : Bool → Parse (Unit {0})
need true = parsed tt
need false = failed

abbrev pub is_negative : ℕ → Bool
is_negative n = leb (2 ^ 31) n

unfoldable pub test_mode_of : Text → Parse FileTestMode
test_mode_of t =
    if text_eq t text_seqwr
    then parsed mode_write
    else if text_eq t text_seqrewr
    then parsed mode_rewrite
    else if text_eq t text_seqrd
    then parsed mode_read
    else if text_eq t text_rndrd
    then parsed mode_rnd_read
    else if text_eq t text_rndwr
    then parsed mode_rnd_write
    else if text_eq t text_rndrw
    then parsed mode_rnd_rw
    else failed

-- `runs` says that the command is run; the mode has its initial value otherwise.
unfoldable pub parse_test_mode : (runs : Bool) → Option Text → Parse FileTestMode
parse_test_mode false mode = parsed mode_read
parse_test_mode true none = failed
parse_test_mode true (some t) = test_mode_of t

unfoldable pub parse_io_mode : Build → Option Text → Parse FileIoMode
parse_io_mode build none = parsed file_io_mode_sync
parse_io_mode build (some t) =
    if text_eq t text_sync
    then parsed file_io_mode_sync
    else if text_eq t text_async
    then (if build.have_libaio then parsed file_io_mode_async else failed)
    else if text_eq t text_mmap
    then (if build.have_mmap then parsed file_io_mode_mmap else failed)
    else failed

unfoldable pub parse_extra_flags : Build → Option Text → Parse ExtraFlags
parse_extra_flags build none = parsed no_flags
parse_extra_flags build (some []) = parsed no_flags
parse_extra_flags build (some (c ∷ cs)) =
    let t = c ∷ cs in
    if text_eq t text_sync
    then parsed o_sync
    else if text_eq t text_dsync
    then (if build.have_o_dsync then parsed o_dsync else failed)
    else if text_eq t text_direct
    then (if build.have_o_direct then parsed o_direct else failed)
    else failed

unfoldable pub parse_fsync_mode : Build → Option Text → Parse FileFsyncMode
parse_fsync_mode build none = crashed
parse_fsync_mode build (some t) =
    if text_eq t text_fsync
    then parsed fsync_all
    else if text_eq t text_fdatasync
    then (if build.have_fdatasync then parsed fsync_data else failed)
    else failed

-- `file_max_request_size`, from a product of two ints that may not fit
unfoldable pub request_size : (block merged : ℕ) → Parse ℕ
request_size block merged =
    if ltb 0 merged
    then (if is_negative (block * merged) then overflowed else parsed (block * merged))
    else parsed block

-- num_files is unsigned and total_size a long long.
unfoldable pub parse_arguments : Build → (runs : Bool) → Given → Parse Arguments
parse_arguments build runs g = do
  _ ← need (not (g.file_num == 0))
  _ ← need (not (g.file_total_size == 0) && ltb g.file_total_size (2 ^ 63))
  mode ← parse_test_mode runs g.file_test_mode
  io ← parse_io_mode build g.file_io_mode
  _ ← need (not (is_negative g.file_merged_requests))
  _ ← need (not (g.file_block_size % 2 ^ 32 == 0) && not (is_negative (g.file_block_size % 2 ^ 32)))
  largest ← request_size (g.file_block_size % 2 ^ 32) g.file_merged_requests
  flags ← parse_extra_flags build g.file_extra_flags
  _ ← need (not (is_negative g.file_fsync_freq))
  sync ← parse_fsync_mode build g.file_fsync_mode
  _ ← need (not g.negative_ratio)
  parsed (record {
    num_files = g.file_num;
    total_size = g.file_total_size;
    file_size = g.file_total_size / g.file_num;
    test_mode = mode;
    io_mode = io;
    merged_requests = g.file_merged_requests;
    block_size = g.file_block_size % 2 ^ 32;
    max_request_size = largest;
    extra_flags = flags;
    fsync_freq = if g.file_fsync_all then 0 else g.file_fsync_freq;
    fsync_all_writes = g.file_fsync_all;
    fsync_end = if g.file_fsync_all then false else g.file_fsync_end;
    fsync_mode = sync;
  })
