-- ===== src/Sysbench/BlockTests.antt =====
-- Arguments, and blocks and files with a checksum that adds up the bytes, and the theorems at them.
use htmsql.Prelude.{
  ℕ, zero, suc, ◌+◌, ◌%◌, ◌^◌, ◌<◌, ◌≡◌, refl, ap, true, some, List, arith, length, All, none,
  false,
}
use native.Mathlib.Nat.{mod-lt}
use htmsql.Sysbench.Fileio.{mode_rnd_read}
use htmsql.Sysbench.Fileio.Words.{text_rndrd, text_dsync, text_fdatasync}
use htmsql.Sysbench.Fileio.Arguments.{
  Given, Build, Arguments, file_io_mode_sync, o_dsync, fsync_data,
}
use htmsql.Sysbench.Fileio.Blocks.{
  file_fill_buffer, file_validate_buffer, file_validate-fill_buffer,
}
use htmsql.Sysbench.Fileio.Create.{create_files, IsWritten, create_files-IsWritten}

abbrev all_built : Build
all_built = record {
  have_libaio = true;
  have_mmap = true;
  have_fdatasync = true;
  have_o_dsync = true;
  have_o_direct = true;
}

-- The options of a random read test with file-fsync-all and merged requests.
abbrev given : Given
given = record {
  file_num = 2;
  file_total_size = 100;
  file_test_mode = some text_rndrd;
  file_io_mode = none;
  file_merged_requests = 3;
  file_block_size = 16;
  file_extra_flags = some text_dsync;
  file_fsync_freq = 100;
  file_fsync_all = true;
  file_fsync_end = true;
  file_fsync_mode = some text_fdatasync;
  negative_ratio = false;
}

abbrev arguments : Arguments
arguments = record {
  num_files = 2;
  total_size = 100;
  file_size = 50;
  test_mode = mode_rnd_read;
  io_mode = file_io_mode_sync;
  merged_requests = 3;
  block_size = 16;
  max_request_size = 48;
  extra_flags = o_dsync;
  fsync_freq = 0;
  fsync_all_writes = true;
  fsync_end = false;
  fsync_mode = fsync_data;
}

abbrev sum_of : (ℕ → ℕ) → ℕ → ℕ
sum_of f zero = 0
sum_of f (suc n) = sum_of f n + f n

sum_of-local : (f g : ℕ → ℕ) (n : ℕ) → ((j : ℕ) → j < n → f j ≡ g j) → sum_of f n ≡ sum_of g n
sum_of-local f g zero same = refl
sum_of-local f g (suc n) same =
    rw (sum_of-local f g n (λ j lt. same j (omega arith)), same n (omega arith))

abbrev checksum : (ℕ → ℕ) → ℕ → ℕ
checksum f n = sum_of f n % 2 ^ 32

checksum-local : (f g : ℕ → ℕ) (n : ℕ) → ((j : ℕ) → j < n → f j ≡ g j) → checksum f n ≡ checksum g n
checksum-local f g n same = ap (λ s. s % 2 ^ 32) (sum_of-local f g n same)

checksum-lt : (f : ℕ → ℕ) (n : ℕ) → checksum f n < 2 ^ 32
checksum-lt f n = mod-lt (sum_of f n) (omega arith)

file_validate-fill_buffer_example :
    (block : ℕ → ℕ) × (file_fill_buffer checksum (λ i. i) (λ i. 0) 16 32 ≡ some block)
    × (file_validate_buffer checksum block 16 48 ≡ some 1)
file_validate-fill_buffer_example =
    file_validate-fill_buffer checksum checksum-local checksum-lt (λ i. i) (λ i. 0) 16 32 48
      (omega arith) (omega arith)

create_files-IsWritten_example :
    (files : List (List (ℕ × (ℕ → ℕ)))) × (create_files checksum true
        (λ i o n. n)
        (λ i. true)
        (λ i o. true)
        2
        40
        16
        41
        (λ i. 0)
      ≡ some files)
    × (length files ≡ 2)
    × All (IsWritten checksum 40 16 0) files
create_files-IsWritten_example =
    create_files-IsWritten checksum checksum-local checksum-lt (λ i o n. n) (λ i. true)
      (λ i o. true) 2 40 16 41 (λ i. refl) (λ i o. refl) (omega arith) (omega arith) (omega arith)
      (λ i. 0)
