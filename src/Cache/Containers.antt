-- ===== src/Cache/Containers.antt =====
-- src/cache/containers.rs: a key that holds a list, a hash or a set of members.
use tessaridb_sdk_rust.Common.{
  Bool, Option, none, some, List, [], ◌∷◌, ℤ, pos, negsuc, Result, ok, err,
}
use tessaridb_sdk_rust.Common.Utf8.{Text, literal}
use tessaridb_sdk_rust.Cache.Space.{value, flag, if_held, integer_of, with_result}
use tessaridb_sdk_rust.Cache.Statements.{Statements}
use tessaridb_sdk_rust.Cache.Statements
use tessaridb_sdk_rust.Cache.Statements.Containers
use tessaridb_sdk_rust.Cache.Statements.Containers.{End}
use tessaridb_sdk_rust.Client.Session.{Session}
use tessaridb_sdk_rust.Error.{Error, malformed, not_a_cache_argument}
use tessaridb_sdk_rust.Statement.{Rendered}
use tessaridb_sdk_rust.Value.{Value, Number, Items, no_items, item, entries}
use tessaridb_sdk_rust.Wire.Stream.{after}

-- `some`: a slice that is not empty.
unfoldable pub at_least_one : {A : Type 0} → List A → Text → Result Error (Unit {0})
at_least_one [] reason = err (not_a_cache_argument reason)
at_least_one (x ∷ xs) reason = ok tt

unfoldable pub not_negative : ℤ → Text → Result Error (Unit {0})
not_negative (pos n) reason = ok tt
not_negative (negsuc n) reason = err (not_a_cache_argument reason)

unfoldable pub not_negative_if : Option ℤ → Text → Result Error (Unit {0})
unfolding not_negative
not_negative_if none reason = ok tt
not_negative_if (some count) reason = not_negative count reason

unfoldable pub list_of : Items → List Value
list_of no_items = []
list_of (item v rest) = v ∷ list_of rest

unfoldable pub length_of : Value → Result Error ℤ
length_of (Value.number (Number.integer held)) = ok held
length_of Value.none = ok (pos 0)
length_of other = err malformed

unfoldable pub elements_of : Value → Result Error (List Value)
unfolding list_of
elements_of (Value.array items) = ok (list_of items)
elements_of Value.none = ok []
elements_of other = err malformed

unfoldable pub fields_of : Value → Result Error (List (Text × Value))
fields_of (Value.object fields) = ok (entries fields)
fields_of Value.none = ok []
fields_of other = err malformed

unfoldable pub members_of : Value → Result Error (List Value)
unfolding list_of
members_of (Value.set items) = ok (list_of items)
members_of Value.none = ok []
members_of other = err malformed

module _ (session : Session) (s : Statements) where
  open session use {State}

  unfoldable pub integer : Rendered → State → Result Error ℤ × State
  integer bound w = after (value session s bound w) λ held t. (integer_of held, t)

  unfoldable pub length : Rendered → State → Result Error ℤ × State
  length bound w = after (value session s bound w) λ held t. (length_of held, t)

  unfoldable pub present : Rendered → State → Result Error (Option Value) × State
  present bound w = after (value session s bound w) λ found t. (ok (if_held found), t)

  unfoldable pub elements : Rendered → State → Result Error (List Value) × State
  elements bound w = after (value session s bound w) λ held t. (elements_of held, t)

  unfoldable pub list_push : Text → End → List Value → State → Result Error ℤ × State
  unfolding integer with_result
  list_push key end values w =
      with_result (at_least_one values (literal "a push needs a value")) w
        λ _. integer (Containers.list_push s key end values) w

  unfoldable pub list_pop : Text → End → State → Result Error (Option Value) × State
  unfolding present
  list_pop key end w = present (Containers.list_pop s key end none) w

  unfoldable pub list_pop_many : Text → End → ℤ → State → Result Error (List Value) × State
  unfolding elements with_result
  list_pop_many key end count w =
      with_result (not_negative count (literal "a count is not negative")) w
        λ _. elements (Containers.list_pop s key end (some count)) w

  unfoldable pub list_range : Text → ℤ → ℤ → State → Result Error (List Value) × State
  unfolding elements with_result
  list_range key start count w =
      with_result (not_negative start (literal "a range starts at or after the first element")) w
        λ _.
          with_result (not_negative count (literal "a count is not negative")) w
            λ _. elements (Containers.list_range s key start count) w

  unfoldable pub list_at : Text → ℤ → State → Result Error (Option Value) × State
  unfolding present
  list_at key index w = present (Containers.list_at s key index) w

  unfoldable pub list_len : Text → State → Result Error ℤ × State
  unfolding length
  list_len key w = length (Containers.list_len s key) w

  unfoldable pub list_remove : Text → Value → Option ℤ → State → Result Error ℤ × State
  unfolding integer with_result
  list_remove key v count w =
      with_result (not_negative_if count (literal "a count is not negative")) w
        λ _. integer (Containers.list_remove s key v count) w

  unfoldable pub list_trim : Text → ℤ → ℤ → State → Result Error (Unit {0}) × State
  list_trim key start stop w =
      after (value session s (Containers.list_trim s key start stop) w) λ _ t. (ok tt, t)

  unfoldable pub hash_set : Text → List (Text × Value) → State → Result Error ℤ × State
  unfolding integer with_result
  hash_set key fields w =
      with_result (at_least_one fields (literal "a hash write needs a field")) w
        λ _. integer (Containers.hash_set s key fields) w

  unfoldable pub hash_get : Text → Text → State → Result Error (Option Value) × State
  unfolding present
  hash_get key field w = present (Containers.hash_get s key field) w

  unfoldable pub hash_get_all : Text → State → Result Error (List (Text × Value)) × State
  hash_get_all key w =
      after (value session s (Statements.get s key) w) λ held t. (fields_of held, t)

  unfoldable pub hash_remove : Text → List Text → State → Result Error ℤ × State
  unfolding integer with_result
  hash_remove key fields w =
      with_result (at_least_one fields (literal "a hash removal needs a field")) w
        λ _. integer (Containers.hash_remove s key fields) w

  unfoldable pub hash_incr : Text → Text → ℤ → State → Result Error ℤ × State
  unfolding integer
  hash_incr key field by w = integer (Containers.hash_incr s key field by) w

  unfoldable pub hash_len : Text → State → Result Error ℤ × State
  unfolding length
  hash_len key w = length (Containers.hash_len s key) w

  unfoldable pub members_add : Text → List Value → State → Result Error ℤ × State
  unfolding integer with_result
  members_add key members w =
      with_result (at_least_one members (literal "a set write needs a member")) w
        λ _. integer (Containers.members s (literal "ADD") key members) w

  unfoldable pub members_remove : Text → List Value → State → Result Error ℤ × State
  unfolding integer with_result
  members_remove key members w =
      with_result (at_least_one members (literal "a set removal needs a member")) w
        λ _. integer (Containers.members s (literal "REMOVE") key members) w

  unfoldable pub members_has : Text → Value → State → Result Error Bool × State
  members_has key member w = flag session s (Containers.members_has s key member) w

  unfoldable pub members_all : Text → State → Result Error (List Value) × State
  members_all key w =
      after (value session s (Statements.get s key) w) λ held t. (members_of held, t)

  unfoldable pub members_len : Text → State → Result Error ℤ × State
  unfolding length
  members_len key w = length (Containers.members_len s key) w
