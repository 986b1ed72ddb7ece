-- ===== src/Sysbench/Fileio/Create.antt =====
-- create_files of tests/fileio/sb_fileio.c: the blocks that it writes.
use htmsql.Prelude.{
  ℕ, zero, suc, ◌+◌, ◌^◌, ◌<◌, ◌≤◌, ◌≡◌, refl, ap, ◌∙◌, Option, none, some, inl, inr, Bool-cases,
  length, All, Bool, true, not, List, [], ◌∷◌, arith, if◌then◌else◌, ltb,
}
use mathlib.Core.Option
use htmsql.Sysbench.Fileio.Blocks.{
  file_fill_buffer, file_validate_buffer, file_validate-fill_buffer,
}

-- The loop over one file and that over the files; none where open or write fails, or where a
-- block leaves the buffer. `opens i` and
-- `writes i offset` say whether the call succeeds, and `sb_rnd i offset` are the random numbers.
module _ (crc32 : (ℕ → ℕ) → ℕ → ℕ) (validate : Bool) (sb_rnd : ℕ → ℕ → ℕ → ℕ) (opens : ℕ → Bool)
    (writes : ℕ → ℕ → Bool) (num_files file_size file_block_size : ℕ) where
  -- The offset and the bytes of each block, and the buffer behind it.
  unfoldable pub write_blocks :
      (fuel i offset : ℕ) → (ℕ → ℕ) → Option (List (ℕ × (ℕ → ℕ)) × (ℕ → ℕ))
  write_blocks zero i offset buffer = none
  write_blocks (suc k) i offset buffer =
      let block =
        if validate
        then file_fill_buffer crc32 (sb_rnd i offset) buffer file_block_size offset
        else some buffer in
      if not (ltb offset file_size) then some ([], buffer) else elim block [
        | none ↦ none
        | some filled ↦
            let rest = write_blocks k i (offset + file_block_size) filled in
            if writes i offset
            then Option.map (λ (blocks, last). ((offset, filled) ∷ blocks, last)) rest
            else none
      ]

  unfoldable pub create_from : (fuel n i : ℕ) → (ℕ → ℕ) → Option (List (List (ℕ × (ℕ → ℕ))))
  create_from fuel zero i buffer = some []
  create_from fuel (suc n) i buffer =
      if opens i
      then elim (write_blocks fuel i 0 buffer) [
        | none ↦ none
        | some (blocks, last) ↦
            Option.map (λ files. blocks ∷ files) (create_from fuel n (i + 1) last)
      ]
      else none

  unfoldable pub create_files : (fuel : ℕ) → (ℕ → ℕ) → Option (List (List (ℕ × (ℕ → ℕ))))
  create_files fuel buffer = create_from fuel num_files 0 buffer

-- From `offset` on, the blocks follow one another without a gap up to the end of the file, and each
-- passes file_validate_buffer at its offset.
abbrev pub IsWritten :
    (crc32 : (ℕ → ℕ) → ℕ → ℕ) → (file_size file_block_size offset : ℕ) → List (ℕ × (ℕ → ℕ)) → Type 0
IsWritten crc32 file_size file_block_size offset [] = file_size ≤ offset
IsWritten crc32 file_size file_block_size offset ((o, block) ∷ blocks) =
    (o ≡ offset)
    × (offset < file_size)
    × (file_validate_buffer crc32 block file_block_size o ≡ some 0)
    × IsWritten crc32 file_size file_block_size (offset + file_block_size) blocks

-- crc32 reads the first `n` bytes alone and returns 32 bits.
module _ (crc32 : (ℕ → ℕ) → ℕ → ℕ)
    (crc32-local : (f g : ℕ → ℕ) (n : ℕ) → ((j : ℕ) → j < n → f j ≡ g j) → crc32 f n ≡ crc32 g n)
    (crc32-lt : (f : ℕ → ℕ) (n : ℕ) → crc32 f n < 2 ^ 32) where
  module _ (sb_rnd : ℕ → ℕ → ℕ → ℕ) (opens : ℕ → Bool) (writes : ℕ → ℕ → Bool)
      (num_files file_size file_block_size fuel : ℕ) (opened : (i : ℕ) → opens i ≡ true)
      (written : (i offset : ℕ) → writes i offset ≡ true) (block_long : 12 ≤ file_block_size)
      (small : file_size ≤ 2 ^ 63) (enough : file_size < fuel) where
    write_blocks-IsWritten :
        (k i offset : ℕ) (buffer : ℕ → ℕ)
        → 0 < k
        → file_size < offset + k
        → (blocks : List (ℕ × (ℕ → ℕ))) × (last : ℕ → ℕ) × (write_blocks crc32 true sb_rnd opens
              writes num_files file_size file_block_size k i offset buffer
            ≡ some (blocks, last))
          × IsWritten crc32 file_size file_block_size offset blocks
    unfolding write_blocks
    write_blocks-IsWritten zero i offset buffer some_fuel left = absurd (omega arith)
    write_blocks-IsWritten (suc k) i offset buffer some_fuel left =
        elim (Bool-cases (ltb offset file_size)) [
          | inl more ↦
              let (filled, eq_filled, valid) =
                file_validate-fill_buffer crc32 crc32-local crc32-lt (sb_rnd i offset) buffer
                  file_block_size offset offset block_long (ground arith) in
              let (blocks, last, eq, rest) =
                write_blocks-IsWritten k i (offset + file_block_size) filled (ground arith)
                  (omega arith) in
              let passes : file_validate_buffer crc32 filled file_block_size offset ≡ some 0 =
                valid ∙ ground arith in
              (
                (offset, filled) ∷ blocks,
                last,
                rw (more, eq_filled, written i offset, eq),
                (refl, ground arith, passes, rest),
              )
          | inr over ↦ ([], buffer, rw over, ground arith)
        ]

    create_from-IsWritten :
        (n i : ℕ) (buffer : ℕ → ℕ)
        → (files : List (List (ℕ × (ℕ → ℕ)))) × (create_from crc32 true sb_rnd opens writes
              num_files file_size file_block_size fuel n i buffer
            ≡ some files)
          × (length files ≡ n)
          × All (IsWritten crc32 file_size file_block_size 0) files
    unfolding create_from
    create_from-IsWritten zero i buffer = ([], refl, refl, tt)
    create_from-IsWritten (suc n) i buffer =
        let (blocks, last, eq, is) =
          write_blocks-IsWritten fuel i 0 buffer (omega arith) (omega arith) in
        let (files, eq', len, all) = create_from-IsWritten n (i + 1) last in
        (blocks ∷ files, rw (opened i, eq, eq'), ap suc len, (is, all))

    -- create_files in validation mode, with blocks of at least 12 bytes and where open and write succeed,
    -- ends and leaves all files, each
    -- with blocks that follow one another up to the size of a file and pass file_validate_buffer.
    pub create_files-IsWritten :
        (buffer : ℕ → ℕ)
        → (files : List (List (ℕ × (ℕ → ℕ)))) × (create_files crc32 true sb_rnd opens writes
              num_files file_size file_block_size fuel buffer
            ≡ some files)
          × (length files ≡ num_files)
          × All (IsWritten crc32 file_size file_block_size 0) files
    unfolding create_files
    create_files-IsWritten buffer = create_from-IsWritten num_files 0 buffer
