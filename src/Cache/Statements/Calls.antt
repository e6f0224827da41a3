-- ===== src/Cache/Statements/Calls.antt =====
-- The statements of src/cache/statements.rs and src/cache/statements/containers.rs, by the call that
-- each is for.
use tessaridb_sdk_rust.Common.{ℕ, Option, none, some, List, [], ℤ}
use tessaridb_sdk_rust.Common.Utf8.{Text, literal}
use tessaridb_sdk_rust.Cache.Statements
use tessaridb_sdk_rust.Cache.Statements.{Statements}
use tessaridb_sdk_rust.Cache.Statements.Containers
use tessaridb_sdk_rust.Cache.Statements.Containers.{End}
use tessaridb_sdk_rust.Statement.{Rendered}
use tessaridb_sdk_rust.Value.{Value}

-- A call on a key, or the listing of keys; a score is the 64 bits of a double.
pub data Call : Type 0 where
  get : Text → Call
  set : Text → Value → Option Value → Call
  set_if_absent : Text → Value → Option Value → Call
  set_if_present : Text → Value → Option Value → Call
  compare_and_set : Text → Value → Value → Option Value → Call
  delete : Text → Call
  incr : Text → ℤ → Call
  ttl : Text → Call
  expire : Text → Value → Call
  persist : Text → Call
  keys : Option Text → Option Text → ℕ → Call
  lock : Text → Text → Value → Call
  extend : Text → Text → Value → Call
  release : Text → Text → Call
  list_push : Text → End → List Value → Call
  list_pop : Text → End → Option ℤ → Call
  list_range : Text → ℤ → ℤ → Call
  list_at : Text → ℤ → Call
  list_len : Text → Call
  list_remove : Text → Value → Option ℤ → Call
  list_trim : Text → ℤ → ℤ → Call
  hash_set : Text → List (Text × Value) → Call
  hash_get : Text → Text → Call
  hash_remove : Text → List Text → Call
  hash_incr : Text → Text → ℤ → Call
  hash_len : Text → Call
  members_add : Text → List Value → Call
  members_remove : Text → List Value → Call
  members_has : Text → Value → Call
  members_len : Text → Call
  scores_add : Text → List (Text × ℕ) → Call
  scores_incr : Text → Text → ℕ → Call
  scores_remove : Text → List Text → Call
  scores_score : Text → Text → Call
  scores_rank : Text → Text → Call
  scores_range : Text → ℤ → ℤ → Call
  scores_between : Text → Option ℕ → Option ℕ → Call

unfoldable pub rendered : Statements → Call → Rendered
rendered s (Call.get key) = Statements.get s key
rendered s (Call.set key v lasting) = Statements.set s key v [] none lasting
rendered s (Call.set_if_absent key v lasting) =
    Statements.set s key v (literal " IF ABSENT") none lasting
rendered s (Call.set_if_present key v lasting) =
    Statements.set s key v (literal " IF PRESENT") none lasting
rendered s (Call.compare_and_set key expected v lasting) =
    Statements.set s key v (literal " IF = $e") (some expected) lasting
rendered s (Call.delete key) = Statements.delete s key
rendered s (Call.incr key by) = Statements.incr s key by
rendered s (Call.ttl key) = Statements.ttl s key
rendered s (Call.expire key lasting) = Statements.expire s key lasting
rendered s (Call.persist key) = Statements.persist s key
rendered s (Call.keys prefix from limit) = Statements.keys s prefix from limit
rendered s (Call.lock key holder lasting) = Statements.lock s key holder lasting
rendered s (Call.extend key holder lasting) = Statements.extend s key holder lasting
rendered s (Call.release key holder) = Statements.release s key holder
rendered s (Call.list_push key end values) = Containers.list_push s key end values
rendered s (Call.list_pop key end count) = Containers.list_pop s key end count
rendered s (Call.list_range key start count) = Containers.list_range s key start count
rendered s (Call.list_at key index) = Containers.list_at s key index
rendered s (Call.list_len key) = Containers.list_len s key
rendered s (Call.list_remove key v count) = Containers.list_remove s key v count
rendered s (Call.list_trim key start stop) = Containers.list_trim s key start stop
rendered s (Call.hash_set key fields) = Containers.hash_set s key fields
rendered s (Call.hash_get key field) = Containers.hash_get s key field
rendered s (Call.hash_remove key fields) = Containers.hash_remove s key fields
rendered s (Call.hash_incr key field by) = Containers.hash_incr s key field by
rendered s (Call.hash_len key) = Containers.hash_len s key
rendered s (Call.members_add key members) = Containers.members s (literal "ADD") key members
rendered s (Call.members_remove key members) = Containers.members s (literal "REMOVE") key members
rendered s (Call.members_has key member) = Containers.members_has s key member
rendered s (Call.members_len key) = Containers.members_len s key
rendered s (Call.scores_add key scores) = Containers.scores_add s key scores
rendered s (Call.scores_incr key member by) = Containers.scores_incr s key member by
rendered s (Call.scores_remove key members) = Containers.scores_remove s key members
rendered s (Call.scores_score key member) = Containers.scores_of s (literal "score") key member
rendered s (Call.scores_rank key member) = Containers.scores_of s (literal "rank") key member
rendered s (Call.scores_range key start stop) = Containers.scores_range s key start stop
rendered s (Call.scores_between key low high) = Containers.scores_between s key low high
