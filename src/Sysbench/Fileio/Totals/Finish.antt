-- ===== src/Sysbench/Fileio/Totals/Finish.antt =====
-- The end of the loop: the fsync requests behind the last data request, and the whole run.
use htmsql.Prelude.{ℕ, ◌*◌, ◌≡◌, refl, ◌∙◌, true, false, ◌&&◌, arith, some}
use htmsql.Sysbench.Runner.{all_done, runner_thread}
use htmsql.Sysbench.Fileio.{
  Settings, Counters, SbFileOp, op_null, op_read, op_write, op_fsync, clear_stats, seq_operation,
  is_write,
}
use htmsql.Sysbench.Fileio.Sequential.{IsMerged}
use htmsql.Sysbench.Fileio.Execute.{FileSystem}
use htmsql.Sysbench.Fileio.Handed.{Covers, syncs, requests}
use htmsql.Sysbench.Fileio.Totals.{seq_test, moved, Good}
use htmsql.Sysbench.Fileio.Totals.Sync.{synced}

-- The loop comes to its end: the requests that it has handed out cover all that is left, all bytes are
-- counted, and an fsync is counted for each file if that is asked for.
pub record Ended (o : Settings) (f : FileSystem) (c : Counters) : Type 0 where
  pub rounds : ℕ
  pub last : Counters
  pub ends : runner_thread (seq_test o f) rounds c ≡ some (last, all_done)
  pub covers : Covers o c.current_file c.position c.fsynced_file (requests o f rounds c)
  pub bytes : moved (seq_operation o.test_mode) last ≡ o.num_files * o.file_size
  pub syncs :
      o.file_fsync_all ≡ false
      → (o.file_fsync_end && is_write (seq_operation o.test_mode)) ≡ true
      → last.other_ops ≡ o.num_files

moved_nothing : (op : SbFileOp) → moved op clear_stats ≡ 0
unfolding clear_stats
moved_nothing op_write = refl
moved_nothing op_read = refl
moved_nothing op_null = refl
moved_nothing op_fsync = refl

pub clear_stats-Good : (o : Settings) → IsMerged o → Good o clear_stats
unfolding clear_stats
clear_stats-Good o m = record {
  sweep = record {
    file = omega arith;
    inside = m.not_empty;
    stopped = λ _. refl;
    synced = omega arith;
    started = λ _. refl;
  };
  bytes = moved_nothing (seq_operation o.test_mode) ∙ omega arith;
  syncs = λ _. refl;
}
