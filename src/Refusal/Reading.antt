-- ===== src/Refusal/Reading.antt =====
-- src/refusal.rs: a refusal that a node of either kind wrote is read for what it is.
use tessaridb_sdk_rust.Common.{ℕ, ◌<◌, ◌≡◌, refl, none, some, ◌∷◌, leb-gt}
use tessaridb_sdk_rust.Common.Utf8.{Text, IsText}
use tessaridb_sdk_rust.Refusal.Class.{
  RefusalClass, invalid, unauthenticated, forbidden, throttled, elsewhere, retry, conflict,
  unavailable, internal, unknown, from_byte, word, from_word,
}
use tessaridb_sdk_rust.Refusal.{read}

-- The byte of a class in the protocol's table (§3.6).
abbrev pub class_byte : RefusalClass → ℕ
class_byte unknown = 0
class_byte invalid = 1
class_byte unauthenticated = 2
class_byte forbidden = 3
class_byte throttled = 4
class_byte elsewhere = 5
class_byte retry = 6
class_byte conflict = 7
class_byte unavailable = 8
class_byte internal = 9

-- From protocol 1.3 a refusal's class and its message are both recovered.
pub read_classed :
    (class : RefusalClass) (message : Text)
    → IsText message
    → read (class_byte class ∷ message) ≡ (some class, message)
unfolding read from_byte
read_classed unknown message h = rw h.utf8
read_classed _ message h = rw h.utf8

-- Before it a refusal is its message alone, which begins with no control byte, and no class is
-- invented for it.
pub read_plain :
    (byte : ℕ) (rest : Text)
    → 9 < byte
    → IsText (byte ∷ rest)
    → read (byte ∷ rest) ≡ (none, byte ∷ rest)
unfolding read
read_plain byte rest b h = rw (leb-gt byte 9 b, h.utf8)

-- The word of each class names it again.
pub from_word-word : (class : RefusalClass) → from_word (word class) ≡ class
unfolding from_word word
from_word-word unknown = refl
from_word-word _ = refl
