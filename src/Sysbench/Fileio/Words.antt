-- ===== src/Sysbench/Fileio/Words.antt =====
-- The words that parse_arguments of tests/fileio/sb_fileio.c compares with.
use htmsql.Prelude.{[], ◌∷◌}
use htmsql.Sysbench.Text.{Text}

abbrev pub text_seqwr : Text
text_seqwr = b's' ∷ b'e' ∷ b'q' ∷ b'w' ∷ b'r' ∷ []

abbrev pub text_seqrewr : Text
text_seqrewr = b's' ∷ b'e' ∷ b'q' ∷ b'r' ∷ b'e' ∷ b'w' ∷ b'r' ∷ []

abbrev pub text_seqrd : Text
text_seqrd = b's' ∷ b'e' ∷ b'q' ∷ b'r' ∷ b'd' ∷ []

abbrev pub text_rndrd : Text
text_rndrd = b'r' ∷ b'n' ∷ b'd' ∷ b'r' ∷ b'd' ∷ []

abbrev pub text_rndwr : Text
text_rndwr = b'r' ∷ b'n' ∷ b'd' ∷ b'w' ∷ b'r' ∷ []

abbrev pub text_rndrw : Text
text_rndrw = b'r' ∷ b'n' ∷ b'd' ∷ b'r' ∷ b'w' ∷ []

abbrev pub text_sync : Text
text_sync = b's' ∷ b'y' ∷ b'n' ∷ b'c' ∷ []

abbrev pub text_async : Text
text_async = b'a' ∷ b's' ∷ b'y' ∷ b'n' ∷ b'c' ∷ []

abbrev pub text_mmap : Text
text_mmap = b'm' ∷ b'm' ∷ b'a' ∷ b'p' ∷ []

abbrev pub text_dsync : Text
text_dsync = b'd' ∷ b's' ∷ b'y' ∷ b'n' ∷ b'c' ∷ []

abbrev pub text_direct : Text
text_direct = b'd' ∷ b'i' ∷ b'r' ∷ b'e' ∷ b'c' ∷ b't' ∷ []

abbrev pub text_fsync : Text
text_fsync = b'f' ∷ b's' ∷ b'y' ∷ b'n' ∷ b'c' ∷ []

abbrev pub text_fdatasync : Text
text_fdatasync = b'f' ∷ b'd' ∷ b'a' ∷ b't' ∷ b'a' ∷ b's' ∷ b'y' ∷ b'n' ∷ b'c' ∷ []
