-- ===== src/Wire/Frame/Protocol.antt =====
-- src/lib.rs, `protocol`: the constants.
use tessaridb_sdk_rust.Common.{ℕ, ◌*◌, List, [], ◌∷◌}

-- `b"TESS"`
abbrev pub greeting : List ℕ
greeting = b'T' ∷ b'E' ∷ b'S' ∷ b'S' ∷ []

abbrev pub major : ℕ
major = 1

abbrev pub minor : ℕ
minor = 4

abbrev pub ceiling : ℕ
ceiling = 16 * 1024 * 1024

abbrev pub header_size : ℕ
header_size = 5
