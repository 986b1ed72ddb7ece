-- ===== src/Sysbench/Fileio/Totals.antt =====
-- A thread that runs a sequential test with merged requests, on a file system that does what it is
-- asked to, with no time limit and no error in another thread.
pub mod Sync
pub mod Finish
use htmsql.Prelude.{
  ℕ, zero, suc, ◌+◌, ◌-◌, ◌*◌, ◌%◌, ◌^◌, ◌<◌, ◌≤◌, ◌≡◌, ◌≢◌, refl, sym, ap, ◌∙◌, Bool, true, false,
  not, ◌&&◌, ◌||◌, if◌then◌else◌, ◌==◌, ℕ_discrete, leb, ltb, arith, ◌⊎◌, inl, inr, Option, none,
  some, Bool-cases, List, [], ◌∷◌,
}
use htmsql.Sysbench.Runner.{SbTest, Ending, all_done, runner_round, runner_thread}
use htmsql.Sysbench.Fileio.{
  Settings, Counters, SbFileRequest, SbRequest, type_file, type_null, SbFileOp, op_null, op_read,
  op_write, op_fsync, FileTestMode, mode_read, mode_write, mode_rewrite, mode_rnd_read,
  mode_rnd_write, mode_rnd_rw, mode_mixed, clear_stats, validated, seq_operation, seq_request,
  fsync_request, file_get_seq_request, is_write, seq_advanced, check_seq_req,
}
use htmsql.Sysbench.Fileio.Sequential.{
  IsMerged, IsSweep, IsNext, swept, running, running-def, seq_advanced-full, seq_advanced-part,
  SameCounts, running-SameCounts, stopped_sync, stopped_null,
}
use htmsql.Sysbench.Fileio.Handed.{requests, Covers, requests-request, data_request-Covers}
use htmsql.Sysbench.Fileio.Execute.{
  FileSystem, Outcome, out_of_bounds, failed, succeeded, add_bytes, execute_write, execute_read,
  execute_fsync, count_write, count_read, count_fsync, execute_operation, file_execute_request,
  IsInFiles, in_files, execute-in_files,
}
use native.Mathlib.Nat.{mul-le-mul_right, mod-eq_of_lt}

-- What `execute_request` makes of an outcome. A read outside the bounds has no meaning in C; the
-- theorems show that it does not come about.
abbrev pub result : Counters → Outcome → Counters × Bool
result c (succeeded d) = (d, false)
result c failed = (c, true)
result c out_of_bounds = (c, true)

abbrev pub request : Counters × SbRequest → Counters × Option SbFileRequest
request (c, type_file r) = (c, some r)
request (c, type_null) = (c, none)

unfoldable pub seq_test : Settings → FileSystem → SbTest Counters SbFileRequest
seq_test o f = record {
  get_request = λ c. request (file_get_seq_request o c);
  execute_request = λ c r. result c (file_execute_request o f c r);
  is_late = λ _. false;
  is_error = λ _. false;
}

-- Every call of the operating system succeeds. Blocks that are read are not validated, since what
-- stands in the files is not part of the model.
pub record Works (o : Settings) (f : FileSystem) : Type 0 where
  pub pwrite : (r : SbFileRequest) → f.pwrite r ≡ true
  pub pread : (r : SbFileRequest) → f.pread r ≡ true
  pub fsync : (n : ℕ) → f.fsync n ≡ true
  pub unvalidated : (o.validate && not (is_write (seq_operation o.test_mode))) ≡ false

-- The counter of bytes that the test moves
abbrev pub moved : SbFileOp → Counters → ℕ
moved op_write c = c.bytes_written
moved op_read c = c.bytes_read
moved op_null c = 0
moved op_fsync c = 0

pub record Good (o : Settings) (c : Counters) : Type 0 where
  pub sweep : IsSweep o c
  pub bytes : moved (seq_operation o.test_mode) c ≡ swept o c
  pub syncs : o.file_fsync_all ≡ false → c.other_ops ≡ c.fsynced_file

-- The counters differ in those of `file_execute_request` at most.
pub record SamePlace (c d : Counters) : Type 0 where
  pub position : d.position ≡ c.position
  pub current_file : d.current_file ≡ c.current_file
  pub fsynced_file : d.fsynced_file ≡ c.fsynced_file

pub record Executed (o : Settings) (f : FileSystem) (c : Counters) (r : SbFileRequest)
    : Type 0 where
  pub last : Counters
  pub ran : execute_operation o f c r r.operation ≡ succeeded last
  pub place : SamePlace c last
  pub bytes : moved r.operation last ≡ add_bytes (moved r.operation c) r.size
  pub syncs : o.file_fsync_all ≡ false → last.other_ops ≡ c.other_ops

module _ {o : Settings} {f : FileSystem} (k : Works o f) (c : Counters) where
  execute_read-works :
      o.validate ≡ false
      → (i p n : ℕ)
      → Executed o f c (record { file_id = i; pos = p; size = n; operation = op_read })
  execute_read-works off i p n = record {
    last = count_read c (record { file_id = i; pos = p; size = n; operation = op_read });
    ran = rw (k.pread _, off) refl;
    place = record { position = refl; current_file = refl; fsynced_file = refl };
    bytes = refl;
    syncs = λ _. refl;
  }

  execute_write-works :
      (i p n : ℕ) → Executed o f c (record { file_id = i; pos = p; size = n; operation = op_write })
  execute_write-works i p n = record {
    last = count_write o c (record { file_id = i; pos = p; size = n; operation = op_write });
    ran = rw (k.pwrite _, k.fsync _) (ground arith);
    place = record { position = refl; current_file = refl; fsynced_file = refl };
    bytes = refl;
    syncs = λ h. rw h refl;
  }

  execute_data :
      (i p n : ℕ) (m : FileTestMode)
      → (o.validate && not (is_write (seq_operation m))) ≡ false
      → Executed o f c (record { file_id = i; pos = p; size = n; operation = seq_operation m })
  execute_data i p n mode_write off = execute_write-works i p n
  execute_data i p n mode_rewrite off = execute_write-works i p n
  execute_data i p n mode_read off = execute_read-works (ground arith) i p n
  execute_data i p n mode_rnd_read off = execute_read-works (ground arith) i p n
  execute_data i p n mode_rnd_write off = execute_read-works (ground arith) i p n
  execute_data i p n mode_rnd_rw off = execute_read-works (ground arith) i p n
  execute_data i p n mode_mixed off = execute_read-works (ground arith) i p n

request-file :
    (c : Counters) (q : SbRequest) (r : SbFileRequest)
    → q ≡ type_file r
    → request (c, q) ≡ (c, some r)
request-file c q r e = rw e refl

pub runs-request :
    (o : Settings) (f : FileSystem) (n : ℕ) (c d : Counters) (r : SbFileRequest)
    → (file_get_seq_request o c).1 ≡ type_file r
    → file_execute_request o f (file_get_seq_request o c).0 r ≡ succeeded d
    → runner_thread (seq_test o f) (suc n) c ≡ runner_thread (seq_test o f) n d
unfolding runner_thread seq_test
runs-request o f n c d r e h =
    ap (runner_round (seq_test o f) (runner_thread (seq_test o f) n)) (request-file _ _ r e)
    ∙ rw h refl

pub record Stepped (o : Settings) (f : FileSystem) (c : Counters) (size : ℕ) : Type 0 where
  pub last : Counters
  pub runs : (n : ℕ) → runner_thread (seq_test o f) (suc n) c ≡ runner_thread (seq_test o f) n last
  pub good : Good o last
  pub handed : (n : ℕ) → requests o f (suc n) c ≡ seq_request o c ∷ requests o f n last
  pub covers :
      (l : List SbFileRequest)
      → Covers o last.current_file last.position last.fsynced_file l
      → Covers o c.current_file c.position c.fsynced_file (seq_request o c ∷ l)
  pub further : swept o last ≡ swept o c + size
  pub nonzero : 1 ≤ size

pub SamePlace-IsSweep : {o : Settings} {c d : Counters} → SamePlace c d → IsSweep o c → IsSweep o d
SamePlace-IsSweep p w = record {
  file = rw p.current_file w.file;
  inside = rw p.position w.inside;
  stopped = rw (p.current_file, p.position) w.stopped;
  synced = rw p.fsynced_file w.synced;
  started = rw (p.current_file, p.fsynced_file) w.started;
}

pub moved-SameCounts : {c d : Counters} → SameCounts c d → (op : SbFileOp) → moved op d ≡ moved op c
moved-SameCounts s op_null = refl
moved-SameCounts s op_fsync = refl
moved-SameCounts s op_read = s.bytes_read
moved-SameCounts s op_write = s.bytes_written

module _ {o : Settings} {f : FileSystem} {c c1 : Counters} {i p n : ℕ} (g : Good o c)
    (s : SameCounts c c1) (w : IsSweep o c1) (e : swept o c1 ≡ swept o c + n)
    (few : swept o c + n < 2 ^ 64)
    (x : Executed o f c1
      (record { file_id = i; pos = p; size = n; operation = seq_operation o.test_mode })) where
  executed-swept : swept o x.last ≡ swept o c + n
  executed-swept = rw (x.place.current_file, x.place.position) e

  executed-Good : Good o x.last
  executed-Good = record {
    sweep = SamePlace-IsSweep x.place w;
    bytes =
        x.bytes
        ∙ ap (λ b. add_bytes b n) (moved-SameCounts s (seq_operation o.test_mode) ∙ g.bytes)
        ∙ mod-eq_of_lt few
        ∙ sym executed-swept;
    syncs =
        λ h. x.syncs h ∙ s.other_ops ∙ g.syncs h ∙ sym s.fsynced_file ∙ sym x.place.fsynced_file;
  }

module _ {o : Settings} {f : FileSystem} (m : IsMerged o) (k : Works o f)
    (few : o.num_files * o.file_size < 2 ^ 64) where
  below-total :
      {c : Counters}
      → IsSweep o c
      → c.current_file ≢ o.num_files
      → (n : ℕ) → c.position + n ≤ o.file_size
      → swept o c + n ≤ o.num_files * o.file_size
  below-total {c} w h n le =
      let full : (c.current_file + 1) * o.file_size ≤ o.num_files * o.file_size =
        mul-le-mul_right o.file_size (omega (arith, w.file, h)) in
      omega (arith, full, le)

  pub data_step :
      (c : Counters)
      → Good o c
      → c.current_file ≢ o.num_files
      → Stepped o f c (seq_request o c).size
  data_step c g h =
      let (handed, next, further, sweep) = running m g.sweep h in
      let same = running-SameCounts o c h in
      let r = seq_request o c in
      let c1 = (file_get_seq_request o c).0 in
      let ex = execute_data {o = o} k c1 r.file_id r.pos r.size o.test_mode k.unvalidated in
      let ran = execute-in_files o f c1 r (in_files next.some_file next.fits) ∙ ex.ran in
      let fits = below-total g.sweep h r.size next.fits in
      record {
        last = ex.last;
        runs = λ n. runs-request o f n c ex.last r handed ran;
        good = executed-Good g same sweep further (omega (arith, fits, few)) ex;
        handed = λ n. requests-request o f n c ex.last r handed ran;
        covers =
            data_request-Covers ex.last h next ex.place.current_file ex.place.position
              (ex.place.fsynced_file ∙ same.fsynced_file);
        further = executed-swept g same sweep further (omega (arith, fits, few)) ex;
        nonzero = next.nonzero;
      }
