-- ===== src/Cache/Statements/Containers.antt =====
-- src/cache/statements/containers.rs: the statements on lists, hashes, sets and rankings. A score is
-- the 64 bits of a double.
use tessaridb_sdk_rust.Common.{ℕ, zero, suc, Option, none, some, List, [], ◌∷◌, ◌++◌, ℤ}
use tessaridb_sdk_rust.Common.Utf8.{Text, literal}
use tessaridb_sdk_rust.Cache.Statements.{Statements, spelled, key_given, keyed}
use tessaridb_sdk_rust.Query.Decimal.{decimal}
use tessaridb_sdk_rust.Statement.{Rendered}
use tessaridb_sdk_rust.Value.{Value, Number}

pub data End : Type 0 where
  front : End
  back : End

unfoldable pub word : End → Text
word front = literal "FRONT"
word back = literal "BACK"

-- `Value::from` of an `i64` and of a `f64`.
unfoldable pub of_int : ℤ → Value
of_int i = Value.number (Number.integer i)

unfoldable pub of_float : ℕ → Value
of_float bits = Value.number (Number.float bits)

-- `", "` between the parts, before the part at this index.
unfoldable pub comma : ℕ → Text
comma zero = []
comma (suc at) = literal ", "

-- The loop from the index `at` on: `$v0, $v1, …`, and what they bind to.
unfoldable pub numbered : Text → ℕ → List Value → Text × List (Text × Value)
unfolding comma
numbered prefix at [] = ([], [])
numbered prefix at (v ∷ vs) =
    let (written, given) = numbered prefix (suc at) vs in
    let name = prefix ++ decimal at in (comma at ++ (b'$' ∷ (name ++ written)), (name, v) ∷ given)

-- `$f0 = $v0, $f1 = $v1, …`
unfoldable pub paired : Text → Text → ℕ → List (Value × Value) → Text × List (Text × Value)
unfolding comma
paired left right at [] = ([], [])
paired left right at ((name, value) ∷ rest) =
    let (written, given) = paired left right (suc at) rest in
    let l = left ++ decimal at in
    let r = right ++ decimal at in
    (comma at ++ (b'$' ∷ (l ++ (literal " = $" ++ (r ++ written)))), (l, name) ∷ (r, value) ∷ given)

unfoldable pub with_extra : Rendered → List (Text × Value) → Rendered
with_extra (script, given) extra = (script, given ++ extra)

-- A statement that ends with a list of parameters.
unfoldable pub listed : Statements → Text → Text → Text → Text × List (Text × Value) → Rendered
unfolding spelled key_given
listed s before between key (written, given) =
    (spelled s before (between ++ (written ++ literal ";")), key_given key ∷ given)

unfoldable pub list_push : Statements → Text → End → List Value → Rendered
unfolding listed numbered word
list_push s key end values =
    listed s (literal "LIST PUSH ") (literal ":$k " ++ (word end ++ literal " ")) key
      (numbered (literal "v") 0 values)

unfoldable pub list_pop : Statements → Text → End → Option ℤ → Rendered
unfolding keyed with_extra word of_int
list_pop s key end none =
    keyed s (literal "LIST POP ") (literal ":$k " ++ (word end ++ literal ";")) key
list_pop s key end (some count) =
    with_extra
      (keyed s (literal "LIST POP ") (literal ":$k " ++ (word end ++ literal " LIMIT $n;")) key)
      ((literal "n", of_int count) ∷ [])

unfoldable pub list_range : Statements → Text → ℤ → ℤ → Rendered
unfolding keyed with_extra of_int
list_range s key start count =
    with_extra (keyed s (literal "RETURN array::slice(GET ") (literal ":$k, $i, $n);") key)
      ((literal "i", of_int start) ∷ (literal "n", of_int count) ∷ [])

unfoldable pub list_at : Statements → Text → ℤ → Rendered
unfolding keyed with_extra of_int
list_at s key index =
    with_extra (keyed s (literal "RETURN array::at(GET ") (literal ":$k, $i);") key)
      ((literal "i", of_int index) ∷ [])

unfoldable pub list_len : Statements → Text → Rendered
unfolding keyed
list_len s key = keyed s (literal "RETURN array::len(GET ") (literal ":$k);") key

unfoldable pub list_remove : Statements → Text → Value → Option ℤ → Rendered
unfolding keyed with_extra of_int
list_remove s key value none =
    with_extra (keyed s (literal "LIST REMOVE ") (literal ":$k $v;") key)
      ((literal "v", value) ∷ [])
list_remove s key value (some count) =
    with_extra (keyed s (literal "LIST REMOVE ") (literal ":$k $v LIMIT $n;") key)
      ((literal "v", value) ∷ (literal "n", of_int count) ∷ [])

unfoldable pub list_trim : Statements → Text → ℤ → ℤ → Rendered
unfolding keyed with_extra of_int
list_trim s key start stop =
    with_extra (keyed s (literal "LIST TRIM ") (literal ":$k FROM $i TO $j;") key)
      ((literal "i", of_int start) ∷ (literal "j", of_int stop) ∷ [])

-- `.map(|(field, value)| (Value::String(field), value))`
unfoldable pub named_values : List (Text × Value) → List (Value × Value)
named_values [] = []
named_values ((name, value) ∷ rest) = (Value.string name, value) ∷ named_values rest

-- `.map(Value::String)`
unfoldable pub strings : List Text → List Value
strings [] = []
strings (t ∷ ts) = Value.string t ∷ strings ts

unfoldable pub hash_set : Statements → Text → List (Text × Value) → Rendered
unfolding listed paired named_values
hash_set s key fields =
    listed s (literal "HASH SET ") (literal ":$k ") key
      (paired (literal "f") (literal "v") 0 (named_values fields))

unfoldable pub hash_get : Statements → Text → Text → Rendered
unfolding keyed with_extra
hash_get s key field =
    with_extra (keyed s (literal "RETURN object::get(GET ") (literal ":$k, $f);") key)
      ((literal "f", Value.string field) ∷ [])

unfoldable pub hash_remove : Statements → Text → List Text → Rendered
unfolding listed numbered strings
hash_remove s key fields =
    listed s (literal "HASH REMOVE ") (literal ":$k ") key
      (numbered (literal "f") 0 (strings fields))

unfoldable pub hash_incr : Statements → Text → Text → ℤ → Rendered
unfolding keyed with_extra of_int
hash_incr s key field by =
    with_extra (keyed s (literal "HASH INCR ") (literal ":$k $f BY $n;") key)
      ((literal "f", Value.string field) ∷ (literal "n", of_int by) ∷ [])

unfoldable pub hash_len : Statements → Text → Rendered
unfolding keyed
hash_len s key = keyed s (literal "RETURN object::len(GET ") (literal ":$k);") key

unfoldable pub members : Statements → Text → Text → List Value → Rendered
unfolding listed numbered
members s verb key held =
    listed s (literal "MEMBERS " ++ (verb ++ literal " ")) (literal ":$k ") key
      (numbered (literal "v") 0 held)

unfoldable pub members_has : Statements → Text → Value → Rendered
unfolding keyed with_extra
members_has s key member =
    with_extra (keyed s (literal "RETURN $v IN GET ") (literal ":$k;") key)
      ((literal "v", member) ∷ [])

unfoldable pub members_len : Statements → Text → Rendered
unfolding keyed
members_len s key = keyed s (literal "RETURN set::len(GET ") (literal ":$k);") key

-- `.map(|(member, score)| (Value::String(member), Value::from(score)))`
unfoldable pub scored : List (Text × ℕ) → List (Value × Value)
unfolding of_float
scored [] = []
scored ((member, score) ∷ rest) = (Value.string member, of_float score) ∷ scored rest

unfoldable pub scores_add : Statements → Text → List (Text × ℕ) → Rendered
unfolding listed paired scored
scores_add s key scores =
    listed s (literal "SCORES ADD ") (literal ":$k ") key
      (paired (literal "m") (literal "c") 0 (scored scores))

unfoldable pub scores_incr : Statements → Text → Text → ℕ → Rendered
unfolding keyed with_extra of_float
scores_incr s key member by =
    with_extra (keyed s (literal "SCORES INCR ") (literal ":$k $m BY $c;") key)
      ((literal "m", Value.string member) ∷ (literal "c", of_float by) ∷ [])

unfoldable pub scores_remove : Statements → Text → List Text → Rendered
unfolding listed numbered strings
scores_remove s key members =
    listed s (literal "SCORES REMOVE ") (literal ":$k ") key
      (numbered (literal "m") 0 (strings members))

-- `scores::score` or `scores::rank` of one member.
unfoldable pub scores_of : Statements → Text → Text → Text → Rendered
unfolding keyed with_extra
scores_of s function key member =
    with_extra
      (keyed s (literal "RETURN scores::" ++ (function ++ literal "(GET ")) (literal ":$k, $m);")
        key)
      ((literal "m", Value.string member) ∷ [])

unfoldable pub scores_range : Statements → Text → ℤ → ℤ → Rendered
unfolding keyed with_extra of_int
scores_range s key start stop =
    with_extra (keyed s (literal "RETURN scores::range(GET ") (literal ":$k, $i, $j);") key)
      ((literal "i", of_int start) ∷ (literal "j", of_int stop) ∷ [])

-- An end of a range of scores that is not given is written `NONE`.
unfoldable pub end_text : Text → Option ℕ → Text
end_text reference none = literal "NONE"
end_text reference (some score) = reference

unfoldable pub end_given : Text → Option ℕ → List (Text × Value)
unfolding of_float
end_given name none = []
end_given name (some score) = (name, of_float score) ∷ []

unfoldable pub scores_between : Statements → Text → Option ℕ → Option ℕ → Rendered
unfolding keyed with_extra end_text end_given
scores_between s key low high =
    with_extra
      (keyed s (literal "RETURN scores::between(GET ")
        (literal ":$k, "
          ++ (end_text (literal "$lo") low
              ++ (literal ", " ++ (end_text (literal "$hi") high ++ literal ");"))))
        key)
      (end_given (literal "lo") low ++ end_given (literal "hi") high)
