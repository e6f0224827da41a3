-- ===== src/Refusal.antt =====
-- src/refusal.rs: what a refusal says to do next.
pub mod Class
pub mod Reading
use tessaridb_sdk_rust.Common.{ℕ, Option, none, some, List, [], ◌∷◌, leb, if◌then◌else◌}
use tessaridb_sdk_rust.Common.Utf8.{Text, literal, valid_utf8}
use tessaridb_sdk_rust.Refusal.Class.{RefusalClass, from_byte}

-- The class that a body carries, and the bytes of its message. A first byte of 0 to 9 is a class.
unfoldable pub split_class : List ℕ → Option RefusalClass × List ℕ
split_class [] = (none, [])
split_class (byte ∷ rest) =
    if leb byte 9 then (some (from_byte byte), rest) else (none, byte ∷ rest)

unfoldable pub message_of : List ℕ → Text
message_of words =
    if valid_utf8 words
    then words
    else literal "the node refused, in bytes this client could not read"

unfoldable pub read : List ℕ → Option RefusalClass × Text
unfolding split_class message_of
read body = ((split_class body).0, message_of (split_class body).1)
