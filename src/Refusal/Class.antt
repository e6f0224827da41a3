-- ===== src/Refusal/Class.antt =====
-- src/refusal.rs: the classes of refusals, by their bytes and by their words.
use tessaridb_sdk_rust.Common.{ℕ, ◌==◌, if◌then◌else◌, Bool, true, false, ◌&&◌, [], ◌∷◌}
use tessaridb_sdk_rust.Common.Utf8.{Text, literal}

pub data RefusalClass : Type 0 where
  invalid unauthenticated forbidden throttled elsewhere retry conflict unavailable internal
        unknown :
      RefusalClass

unfoldable pub from_byte : ℕ → RefusalClass
from_byte byte =
    if byte == 1
    then invalid
    else if byte == 2
    then unauthenticated
    else if byte == 3
    then forbidden
    else if byte == 4
    then throttled
    else if byte == 5
    then elsewhere
    else if byte == 6
    then retry
    else if byte == 7
    then conflict
    else if byte == 8
    then unavailable
    else if byte == 9
    then internal
    else unknown

-- The word that the protocol uses for a class, and the class that a word names.
unfoldable pub word : RefusalClass → Text
word invalid = literal "invalid"
word unauthenticated = literal "unauthenticated"
word forbidden = literal "forbidden"
word throttled = literal "throttled"
word elsewhere = literal "elsewhere"
word retry = literal "retry"
word conflict = literal "conflict"
word unavailable = literal "unavailable"
word internal = literal "internal"
word unknown = literal "unknown"

unfoldable pub text_eq : Text → Text → Bool
text_eq [] [] = true
text_eq [] (b ∷ bs) = false
text_eq (a ∷ as') [] = false
text_eq (a ∷ as') (b ∷ bs) = a == b && text_eq as' bs

unfoldable pub from_word : Text → RefusalClass
unfolding text_eq
from_word w =
    if text_eq w (literal "invalid")
    then invalid
    else if text_eq w (literal "unauthenticated")
    then unauthenticated
    else if text_eq w (literal "forbidden")
    then forbidden
    else if text_eq w (literal "throttled")
    then throttled
    else if text_eq w (literal "elsewhere")
    then elsewhere
    else if text_eq w (literal "retry")
    then retry
    else if text_eq w (literal "conflict")
    then conflict
    else if text_eq w (literal "unavailable")
    then unavailable
    else if text_eq w (literal "internal")
    then internal
    else unknown
