-- ===== src/Sysbench/Fileio/Totals/Sync.antt =====
-- The fsync requests behind the last data request of file_get_seq_request.
use htmsql.Prelude.{◌+◌, ◌≡◌, refl, Bool, true, false, if◌then◌else◌, arith}
use htmsql.Sysbench.Fileio.{
  Settings, Counters, SbFileRequest, SbFileOp, op_null, op_read, op_write, op_fsync, validated,
  fsync_request,
}
use htmsql.Sysbench.Fileio.Sequential.{SameCounts}
use htmsql.Sysbench.Fileio.Execute.{succeeded, count_fsync}
use htmsql.Sysbench.Fileio.Totals.{moved, SamePlace}

pub validated-SamePlace :
    (o : Settings) (c : Counters) (r : SbFileRequest) → SamePlace c (validated o c r)
validated-SamePlace o c r = record {
  position = ground arith;
  current_file = ground arith;
  fsynced_file = ground arith;
}

pub validated-SameCounts :
    (o : Settings) (c : Counters) (r : SbFileRequest) → SameCounts c (validated o c r)
validated-SameCounts o c r = record {
  bytes_read = ground arith;
  bytes_written = ground arith;
  other_ops = ground arith;
  fsynced_file = ground arith;
}

-- The counters behind the request for an fsync and its execution
abbrev pub issued : Settings → Counters → Counters
issued o c =
    validated o (record c { fsynced_file = c.fsynced_file + 1 }) (fsync_request c.fsynced_file)

abbrev pub synced : Settings → Counters → Counters
synced o c = if o.file_fsync_all then issued o c else count_fsync (issued o c)

-- What an fsync changes is the number of files that are synced.
pub record Synced (o : Settings) (c d : Counters) : Type 0 where
  pub position : d.position ≡ c.position
  pub current_file : d.current_file ≡ c.current_file
  pub fsynced_file : d.fsynced_file ≡ c.fsynced_file + 1
  pub bytes_read : d.bytes_read ≡ c.bytes_read
  pub bytes_written : d.bytes_written ≡ c.bytes_written
  pub other_ops : o.file_fsync_all ≡ false → d.other_ops ≡ c.other_ops + 1

pub synced-Synced : (o : Settings) (c : Counters) → Synced o c (synced o c)
synced-Synced o c = record {
  position = ground arith;
  current_file = ground arith;
  fsynced_file = ground arith;
  bytes_read = ground arith;
  bytes_written = ground arith;
  other_ops = ground arith;
}

pub moved-Synced :
    {o : Settings} {c d : Counters} → Synced o c d → (op : SbFileOp) → moved op d ≡ moved op c
moved-Synced s op_null = refl
moved-Synced s op_fsync = refl
moved-Synced s op_read = s.bytes_read
moved-Synced s op_write = s.bytes_written

pub if_inside :
    (b : Bool) (c d : Counters)
    → (if b then succeeded c else succeeded d) ≡ succeeded (if b then c else d)
if_inside true c d = refl
if_inside false c d = refl
