-- ===== src/Sysbench/Fileio/Arguments/Usable.antt =====
-- What the arguments of the fileio test satisfy when parse_arguments accepts them.
use htmsql.Prelude.{ℕ, ◌*◌, ◌/◌, ◌^◌, ◌<◌, ◌≤◌, ◌≡◌, true, false}
use htmsql.Sysbench.Fileio.Arguments.{Arguments, Parse, failed, crashed, overflowed, parsed}

-- What holds of the value if there is one.
abbrev OnParsed : {A : Type 0} → (A → Type 0) → Parse A → Type 0
OnParsed P failed = Unit
OnParsed P crashed = Unit
OnParsed P overflowed = Unit
OnParsed P (parsed a) = P a

-- What the test relies on: sizes that are in their ranges, requests of one block or of several, and fsync
-- after every write instead of the other two ways. The size of a file may be 0.
pub record IsUsable (a : Arguments) : Type 0 where
  pub files : 0 < a.num_files
  pub total : (0 < a.total_size) × (a.total_size < 2 ^ 63)
  pub size : a.file_size ≡ a.total_size / a.num_files
  pub block : (0 < a.block_size) × (a.block_size < 2 ^ 31)
  pub merged : a.merged_requests < 2 ^ 31
  pub request :
      (a.block_size ≤ a.max_request_size)
      × (a.max_request_size < 2 ^ 31)
      × (0 < a.merged_requests → a.max_request_size ≡ a.block_size * a.merged_requests)
  pub sync_all : a.fsync_all_writes ≡ true → (a.fsync_freq ≡ 0) × (a.fsync_end ≡ false)

-- What holds of the size of a request
IsRequest : (block merged size : ℕ) → Type 0
IsRequest block merged size =
    (block ≤ size) × (size < 2 ^ 31) × (0 < merged → size ≡ block * merged)
