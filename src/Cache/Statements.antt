-- ===== src/Cache/Statements.antt =====
-- src/cache/statements.rs: the statements that a cache handle sends.
pub mod Containers
pub mod Calls
pub mod Bound
use tessaridb_sdk_rust.Common.{
  ℕ, ◌^◌, Bool, true, false, Option, none, some, List, [], ◌∷◌, ◌++◌, ℤ, pos, Result, ok,
  bind as and_then, ltb, ◌==◌, if◌then◌else◌,
}
use tessaridb_sdk_rust.Common.Utf8.{Text, literal}
use tessaridb_sdk_rust.Query.Decimal.{decimal}
use tessaridb_sdk_rust.Query.Fault.{BuildError}
use tessaridb_sdk_rust.Query.Names.{check_name}
use tessaridb_sdk_rust.Statement.{Duration, Rendered, tenancy_of}
use tessaridb_sdk_rust.Value.{Value, Number}

abbrev pub most_keys : ℕ
most_keys = 1000

pub record Statements : Type 0 where
  pub tenancy : Text
  pub space : Text

-- `Duration::is_zero`
unfoldable pub is_zero : Duration → Bool
is_zero ttl = if ttl.secs == 0 then ttl.subsec_nanos == 0 else false

unfoldable pub duration : Duration → Option Value
unfolding is_zero
duration ttl =
    let held =
      (if ltb ttl.secs (2 ^ 63)
        then some (Value.duration (pos ttl.secs) ttl.subsec_nanos)
        else none) in
    if is_zero ttl then none else held

unfoldable pub new : Text → Text → Text → Result BuildError Statements
new namespace database space = and_then (check_name (literal "namespace") namespace) λ _.
    and_then (check_name (literal "database") database) λ _.
      and_then (check_name (literal "space") space)
        λ _. ok (record { tenancy = tenancy_of namespace database; space = space })

-- `format!("{before}{space}{later}")` after the tenancy: the space is written once in a statement.
unfoldable pub spelled : Statements → Text → Text → Text
spelled s before later = s.tenancy ++ (before ++ (s.space ++ later))

-- The parameter `k`.
unfoldable pub key_given : Text → Text × Value
key_given key = (literal "k", Value.string key)

unfoldable pub keyed : Statements → Text → Text → Text → Rendered
unfolding spelled key_given
keyed s before later key = (spelled s before later, key_given key ∷ [])

unfoldable pub get : Statements → Text → Rendered
get s key = keyed s (literal "GET ") (literal ":$k;") key

-- A parameter that is given or not.
unfoldable pub given_if : Text → Option Value → List (Text × Value)
given_if name none = []
given_if name (some v) = (name, v) ∷ []

unfoldable pub expiry : Option Value → Text
expiry none = []
expiry (some ttl) = literal " EXPIRE $t"

unfoldable pub set : Statements → Text → Value → Text → Option Value → Option Value → Rendered
unfolding spelled key_given given_if expiry
set s key value condition expected ttl = (
  spelled s (literal "SET ") (literal ":$k = $v" ++ (condition ++ (expiry ttl ++ literal ";"))),
  key_given key ∷ (literal "v", value) ∷ given_if (literal "e") expected
      ++ given_if (literal "t") ttl,
)

unfoldable pub delete : Statements → Text → Rendered
delete s key = keyed s (literal "DELETE ") (literal ":$k RETURN BEFORE;") key

unfoldable pub incr : Statements → Text → ℤ → Rendered
unfolding spelled key_given
incr s key by = (
  spelled s (literal "INCR ") (literal ":$k BY $n;"),
  key_given key ∷ (literal "n", Value.number (Number.integer by)) ∷ [],
)

unfoldable pub ttl : Statements → Text → Rendered
ttl s key = keyed s (literal "RETURN TTL ") (literal ":$k;") key

unfoldable pub expire : Statements → Text → Value → Rendered
unfolding spelled key_given
expire s key lasting =
    (spelled s (literal "EXPIRE ") (literal ":$k $t;"), key_given key ∷ (literal "t", lasting) ∷ [])

unfoldable pub persist : Statements → Text → Rendered
persist s key = keyed s (literal "PERSIST ") (literal ":$k;") key

-- An empty prefix is left out.
unfoldable pub prefix_clause : Option Text → Text × List (Text × Value)
prefix_clause none = ([], [])
prefix_clause (some []) = ([], [])
prefix_clause (some (c ∷ cs)) = (literal " PREFIX $p", (literal "p", Value.string (c ∷ cs)) ∷ [])

unfoldable pub after_clause : Option Text → Text × List (Text × Value)
after_clause none = ([], [])
after_clause (some after) = (literal " AFTER $a", (literal "a", Value.string after) ∷ [])

unfoldable pub keys : Statements → Option Text → Option Text → ℕ → Rendered
unfolding spelled prefix_clause after_clause
keys s prefix after limit = (
  spelled s (literal "KEYS FROM ") (
      (prefix_clause prefix).0
      ++ ((after_clause after).0 ++ (literal " LIMIT " ++ (decimal limit ++ literal ";")))),
  (prefix_clause prefix).1 ++ (after_clause after).1,
)

unfoldable pub held : Statements → Text → Text → Text → Text → Option Value → Rendered
unfolding spelled key_given given_if
held s before later key holder lasting = (
  spelled s before later,
  key_given key ∷ (literal "h", Value.string holder) ∷ given_if (literal "t") lasting,
)

unfoldable pub lock : Statements → Text → Text → Value → Rendered
unfolding held
lock s key holder lasting =
    held s (literal "SET ") (literal ":$k = $h IF ABSENT EXPIRE $t;") key holder (some lasting)

unfoldable pub extend : Statements → Text → Text → Value → Rendered
unfolding held
extend s key holder lasting =
    held s (literal "SET ") (literal ":$k = $h IF = $h EXPIRE $t;") key holder (some lasting)

unfoldable pub release : Statements → Text → Text → Rendered
unfolding held
release s key holder =
    held s (literal "SET ") (literal ":$k = 'free' IF = $h EXPIRE 1ms;") key holder none

unfoldable pub after_first : ℕ → Option Text → Option Text
after_first c none = none
after_first c (some front) = some (c ∷ front)

-- `strip_suffix('\'')`
unfoldable pub without_quote : Text → Option Text
unfolding after_first
without_quote [] = none
without_quote (c ∷ []) = if c == b'\'' then some [] else none
without_quote (c ∷ d ∷ rest) = after_first c (without_quote (d ∷ rest))

-- The loop over the characters, on bytes: an escaped character's first byte is kept as it is, and
-- its other bytes are none of the two escapes.
unfoldable pub unescaped : Text → Text
unescaped [] = []
unescaped (c ∷ []) = c ∷ []
unescaped (c ∷ d ∷ rest) =
    let skipped = d ∷ unescaped rest in
    let kept = c ∷ unescaped (d ∷ rest) in if c == b'\\' then skipped else kept

unfoldable pub or_inner : Text → Option Text → Text
unfolding unescaped
or_inner spelling none = spelling
or_inner spelling (some inner) = unescaped inner

unfoldable pub unquoted : Text → Text
unfolding without_quote or_inner
unquoted [] = []
unquoted (c ∷ rest) = if c == b'\'' then or_inner (c ∷ rest) (without_quote rest) else c ∷ rest
