-- ===== src/Sysbench/Fileio/Blocks.antt =====
-- The blocks of a file in validation mode: file_fill_buffer and file_validate_buffer in
-- tests/fileio/sb_fileio.c. A buffer gives the byte at each position; crc32 is a
-- parameter. The length of the random bytes is an unsigned difference, which wraps around where the
-- block is shorter than the checksum and the offset: then the accesses leave the buffer, and the
-- result is none.
use htmsql.Prelude.{
  ℕ, zero, suc, ◌+◌, ◌-◌, ◌*◌, ◌/◌, ◌%◌, ◌^◌, ◌<◌, ◌≤◌, ◌≡◌, refl, ◌∙◌, false, not, arith,
  if◌then◌else◌, ◌==◌, ltb, update, Option, none, some,
}
use native.Mathlib.Nat.{mod-add-div, pow-suc, div-lt_iff_lt-mul}

-- Little-endian words of `k` bytes.
unfoldable pub put_word : (k : ℕ) → (ℕ → ℕ) → (i v : ℕ) → ℕ → ℕ
put_word zero buf i v = buf
put_word (suc k) buf i v = put_word k (update buf i (v % 256)) (i + 1) (v / 256)

unfoldable pub get_word : (k : ℕ) → (ℕ → ℕ) → ℕ → ℕ
get_word zero buf i = 0
get_word (suc k) buf i = buf i + 256 * get_word k buf (i + 1)

-- `FILE_CHECKSUM_LENGTH` and `FILE_OFFSET_LENGTH`
abbrev pub file_checksum_length : ℕ
file_checksum_length = 4

abbrev pub file_offset_length : ℕ
file_offset_length = 8

-- The random bytes below `n`; `sb_rnd i` is what the call for byte `i` returns.
unfoldable pub fill_random : (sb_rnd : ℕ → ℕ) → ℕ → (ℕ → ℕ) → ℕ → ℕ
fill_random sb_rnd zero buf = buf
fill_random sb_rnd (suc n) buf = update (fill_random sb_rnd n buf) n (sb_rnd n % 256)

-- `crc32 buf n` is the checksum of the first `n` bytes.
module _ (crc32 : (ℕ → ℕ) → ℕ → ℕ) where
  -- The block with `n` random bytes
  unfoldable pub filled : (sb_rnd : ℕ → ℕ) → (ℕ → ℕ) → (n offset : ℕ) → ℕ → ℕ
  filled sb_rnd buf n offset =
      let random = fill_random sb_rnd n buf in
      put_word file_offset_length (put_word file_checksum_length random n (crc32 random n))
        (n + file_checksum_length) offset

  unfoldable pub file_fill_buffer : (sb_rnd : ℕ → ℕ) → (ℕ → ℕ) → (len offset : ℕ) → Option (ℕ → ℕ)
  file_fill_buffer sb_rnd buf len offset =
      if ltb len (file_checksum_length + file_offset_length)
      then none
      else some (filled sb_rnd buf (len - (file_checksum_length + file_offset_length)) offset)

  unfoldable pub validated : (ℕ → ℕ) → (cs_offset offset : ℕ) → ℕ
  validated buf cs_offset offset =
      if not (crc32 buf cs_offset == get_word file_checksum_length buf cs_offset)
      then 1
      else if not (offset == get_word file_offset_length buf (cs_offset + file_checksum_length))
      then 1
      else 0

  unfoldable pub file_validate_buffer : (ℕ → ℕ) → (len offset : ℕ) → Option ℕ
  file_validate_buffer buf len offset =
      if ltb len (file_checksum_length + file_offset_length)
      then none
      else some (validated buf (len - (file_checksum_length + file_offset_length)) offset)

update_same : (buf : ℕ → ℕ) (i v : ℕ) → update buf i v i ≡ v
update_same buf i v = ground arith

put_word-below : (k : ℕ) (buf : ℕ → ℕ) (i v j : ℕ) → j < i → put_word k buf i v j ≡ buf j
unfolding put_word
put_word-below zero buf i v j lt = refl
put_word-below (suc k) buf i v j lt =
    let ne : (i == j) ≡ false = ground arith in
    rw (put_word-below k (update buf i (v % 256)) (i + 1) (v / 256) j (omega arith), ne)

get_word-same :
    (k : ℕ) (f g : ℕ → ℕ) (i : ℕ)
    → ((j : ℕ) → i ≤ j → j < i + k → f j ≡ g j)
    → get_word k f i ≡ get_word k g i
unfolding get_word
get_word-same zero f g i same = refl
get_word-same (suc k) f g i same = rw (
  same i (omega arith) (omega arith),
  get_word-same k f g (i + 1) (λ j le lt. same j (omega arith) (omega arith)),
)

get-put_word : (k : ℕ) (buf : ℕ → ℕ) (i v : ℕ) → v < 256 ^ k → get_word k (put_word k buf i v) i ≡ v
unfolding get_word put_word
get-put_word zero buf i v lt = omega arith
get-put_word (suc k) buf i v lt =
    let less : v / 256 < 256 ^ k =
      (div-lt_iff_lt-mul (omega arith)).1 (omega (arith, pow-suc 256 k)) in
    let first : put_word k (update buf i (v % 256)) (i + 1) (v / 256) i ≡ v % 256 =
      put_word-below k (update buf i (v % 256)) (i + 1) (v / 256) i (omega arith)
      ∙ update_same buf i (v % 256) in
    rw (first, get-put_word k (update buf i (v % 256)) (i + 1) (v / 256) less) (mod-add-div v 256)

-- crc32 reads the first `n` bytes alone and returns 32 bits.
module _ (crc32 : (ℕ → ℕ) → ℕ → ℕ)
    (crc32-local : (f g : ℕ → ℕ) (n : ℕ) → ((j : ℕ) → j < n → f j ≡ g j) → crc32 f n ≡ crc32 g n)
    (crc32-lt : (f : ℕ → ℕ) (n : ℕ) → crc32 f n < 2 ^ 32) where
  validated-filled :
      (sb_rnd buf : ℕ → ℕ) (n offset offset' : ℕ)
      → offset < 2 ^ 64
      → validated crc32 (filled crc32 sb_rnd buf n offset) n offset'
        ≡ (if offset' == offset then 0 else 1)
  unfolding validated filled
  validated-filled sb_rnd buf n offset offset' lt =
      let random = fill_random sb_rnd n buf in
      let checked = put_word file_checksum_length random n (crc32 random n) in
      let same_crc : crc32 (put_word file_offset_length checked (n + file_checksum_length) offset) n
          ≡ crc32 random n =
        crc32-local (put_word file_offset_length checked (n + file_checksum_length) offset) random n
          λ j j_lt.
            put_word-below file_offset_length checked (n + file_checksum_length) offset j
              (omega arith)
            ∙ put_word-below file_checksum_length random n (crc32 random n) j j_lt in
      let same_word : get_word file_checksum_length
            (put_word file_offset_length checked (n + file_checksum_length) offset) n
          ≡ crc32 random n =
        get_word-same file_checksum_length
          (put_word file_offset_length checked (n + file_checksum_length) offset) checked n
          (λ j le j_lt.
            put_word-below file_offset_length checked (n + file_checksum_length) offset j
              (omega arith))
        ∙ get-put_word file_checksum_length random n (crc32 random n) (crc32-lt random n) in
      rw
        (
          same_crc,
          same_word,
          get-put_word file_offset_length checked (n + file_checksum_length) offset lt,
        )
        (ground arith)

  -- Round trip: a block of at least 12 bytes that file_fill_buffer fills for an offset of 64 bits stays in
  -- its buffer, passes file_validate_buffer at this offset, and fails at every other.
  pub file_validate-fill_buffer :
      (sb_rnd buf : ℕ → ℕ) (len offset offset' : ℕ)
      → 12 ≤ len
      → offset < 2 ^ 64
      → (block : ℕ → ℕ) × (file_fill_buffer crc32 sb_rnd buf len offset ≡ some block)
        × (file_validate_buffer crc32 block len offset' ≡ some (if offset' == offset then 0 else 1))
  unfolding file_validate_buffer file_fill_buffer
  file_validate-fill_buffer sb_rnd buf len offset offset' long lt =
      let n = len - (file_checksum_length + file_offset_length) in
      let inside : ltb len (file_checksum_length + file_offset_length) ≡ false = ground arith in
      (
        filled crc32 sb_rnd buf n offset,
        rw inside refl,
        rw (inside, validated-filled sb_rnd buf n offset offset' lt) refl,
      )
