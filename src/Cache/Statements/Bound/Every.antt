-- ===== src/Cache/Statements/Bound/Every.antt =====
-- src/cache/: every statement that a cache handle sends.
use tessaridb_sdk_rust.Common.{ℕ, ◌≡◌, refl, true, Option, none, some, [], ◌∷◌, ◌++◌, ok}
use tessaridb_sdk_rust.Common.Utf8.{Text, literal}
use tessaridb_sdk_rust.Cache.Statements
use tessaridb_sdk_rust.Cache.Statements.{
  Statements, new, held, keyed, key_given, given_if, spelled, expiry, prefix_clause, after_clause,
}
use tessaridb_sdk_rust.Cache.Statements.Bound.{
  IsChecked, new-IsChecked, bound, numbered_bound, paired_bound,
}
use tessaridb_sdk_rust.Cache.Statements.Calls.{Call, rendered}
use tessaridb_sdk_rust.Cache.Statements.Containers.{
  End, with_extra, end_text, end_given, word, front, back, numbered, paired, strings, named_values,
  scored,
}
use tessaridb_sdk_rust.Cache.Statements.Containers
use tessaridb_sdk_rust.Query.Names.{continues_name, is_digit, opens_name, is_letter, all_continue}
use tessaridb_sdk_rust.Refusal.Class.{text_eq}
use tessaridb_sdk_rust.Query.Decimal.{decimal}
use tessaridb_sdk_rust.Query.Plain.{Gives-ok}
use tessaridb_sdk_rust.Value.{Value}
use tessaridb_sdk_rust.Statement.References.{
  is_bound, no_dollar, references, name_at, names_of, all_among, is_among, references-append,
  no_dollar-decimal,
}

module _ (s : Statements) (h : IsChecked s) where
  -- The member stands in front of the key.
  members_has_bound :
      (key : Text) (member : Value) → is_bound (Containers.members_has s key member) ≡ true
  unfolding is_bound spelled Containers.members_has keyed key_given with_extra no_dollar references
      name_at names_of all_among is_among text_eq continues_name is_digit opens_name is_letter
  members_has_bound key member = rw (
    references-append s.tenancy (literal "RETURN $v IN GET " ++ (s.space ++ literal ":$k;")) h.0,
    references-append s.space (literal ":$k;") h.1,
  )

  no_references : (limit : ℕ) → references (decimal limit ++ literal ";") ≡ []
  unfolding references
  no_references limit = references-append (decimal limit) (literal ";") (no_dollar-decimal limit)

  keys_bound :
      (prefix from : Option Text) (limit : ℕ)
      → is_bound (Statements.keys s prefix from limit) ≡ true
  unfolding Statements.keys prefix_clause after_clause no_dollar references name_at names_of
      all_among is_among text_eq continues_name is_digit opens_name is_letter
  keys_bound none none limit =
      bound s (literal "KEYS FROM ") (literal " LIMIT " ++ (decimal limit ++ literal ";")) _ h refl
        refl (rw (no_references limit))
  keys_bound none (some a) limit =
      bound s (literal "KEYS FROM ") (literal " AFTER $a LIMIT " ++ (decimal limit ++ literal ";"))
        _ h refl refl (rw (no_references limit))
  keys_bound (some []) none limit =
      bound s (literal "KEYS FROM ") (literal " LIMIT " ++ (decimal limit ++ literal ";")) _ h refl
        refl (rw (no_references limit))
  keys_bound (some []) (some a) limit =
      bound s (literal "KEYS FROM ") (literal " AFTER $a LIMIT " ++ (decimal limit ++ literal ";"))
        _ h refl refl (rw (no_references limit))
  keys_bound (some (c ∷ cs)) none limit =
      bound s (literal "KEYS FROM ") (literal " PREFIX $p LIMIT " ++ (decimal limit ++ literal ";"))
        _ h refl refl (rw (no_references limit))
  keys_bound (some (c ∷ cs)) (some a) limit =
      bound s (literal "KEYS FROM ")
        (literal " PREFIX $p AFTER $a LIMIT " ++ (decimal limit ++ literal ";")) _ h refl refl
        (rw (no_references limit))

  call_bound : (call : Call) → is_bound (rendered s call) ≡ true
  unfolding rendered Statements.set expiry Containers.list_pop Containers.list_push
      Containers.scores_between end_text end_given word Containers.hash_set Containers.scores_add
      Containers.hash_remove Containers.scores_remove Containers.members all_continue Statements.get
      Statements.delete Statements.incr Statements.ttl Statements.expire Statements.persist
      Statements.lock Statements.extend Statements.release held keyed key_given given_if with_extra
      Containers.list_range Containers.list_at Containers.list_len Containers.list_remove
      Containers.list_trim Containers.hash_get Containers.hash_incr Containers.hash_len
      Containers.members_has Containers.members_len Containers.scores_incr Containers.scores_of
      Containers.scores_range no_dollar references name_at names_of all_among is_among text_eq
      continues_name is_digit opens_name is_letter
  call_bound (Call.get key) = bound s (literal "GET ") (literal ":$k;") _ h refl refl refl
  call_bound (Call.delete key) =
      bound s (literal "DELETE ") (literal ":$k RETURN BEFORE;") _ h refl refl refl
  call_bound (Call.incr key by) =
      bound s (literal "INCR ") (literal ":$k BY $n;") _ h refl refl refl
  call_bound (Call.ttl key) = bound s (literal "RETURN TTL ") (literal ":$k;") _ h refl refl refl
  call_bound (Call.expire key lasting) =
      bound s (literal "EXPIRE ") (literal ":$k $t;") _ h refl refl refl
  call_bound (Call.persist key) = bound s (literal "PERSIST ") (literal ":$k;") _ h refl refl refl
  call_bound (Call.lock key holder lasting) =
      bound s (literal "SET ") (literal ":$k = $h IF ABSENT EXPIRE $t;") _ h refl refl refl
  call_bound (Call.extend key holder lasting) =
      bound s (literal "SET ") (literal ":$k = $h IF = $h EXPIRE $t;") _ h refl refl refl
  call_bound (Call.release key holder) =
      bound s (literal "SET ") (literal ":$k = 'free' IF = $h EXPIRE 1ms;") _ h refl refl refl
  call_bound (Call.list_range key start count) =
      bound s (literal "RETURN array::slice(GET ") (literal ":$k, $i, $n);") _ h refl refl refl
  call_bound (Call.list_at key index) =
      bound s (literal "RETURN array::at(GET ") (literal ":$k, $i);") _ h refl refl refl
  call_bound (Call.list_len key) =
      bound s (literal "RETURN array::len(GET ") (literal ":$k);") _ h refl refl refl
  call_bound (Call.list_remove key v none) =
      bound s (literal "LIST REMOVE ") (literal ":$k $v;") _ h refl refl refl
  call_bound (Call.list_remove key v (some count)) =
      bound s (literal "LIST REMOVE ") (literal ":$k $v LIMIT $n;") _ h refl refl refl
  call_bound (Call.list_trim key start stop) =
      bound s (literal "LIST TRIM ") (literal ":$k FROM $i TO $j;") _ h refl refl refl
  call_bound (Call.hash_get key field) =
      bound s (literal "RETURN object::get(GET ") (literal ":$k, $f);") _ h refl refl refl
  call_bound (Call.hash_incr key field by) =
      bound s (literal "HASH INCR ") (literal ":$k $f BY $n;") _ h refl refl refl
  call_bound (Call.hash_len key) =
      bound s (literal "RETURN object::len(GET ") (literal ":$k);") _ h refl refl refl
  call_bound (Call.members_has key member) = members_has_bound key member
  call_bound (Call.members_len key) =
      bound s (literal "RETURN set::len(GET ") (literal ":$k);") _ h refl refl refl
  call_bound (Call.scores_incr key member by) =
      bound s (literal "SCORES INCR ") (literal ":$k $m BY $c;") _ h refl refl refl
  call_bound (Call.scores_score key member) =
      bound s (literal "RETURN scores::score(GET ") (literal ":$k, $m);") _ h refl refl refl
  call_bound (Call.scores_rank key member) =
      bound s (literal "RETURN scores::rank(GET ") (literal ":$k, $m);") _ h refl refl refl
  call_bound (Call.scores_range key start stop) =
      bound s (literal "RETURN scores::range(GET ") (literal ":$k, $i, $j);") _ h refl refl refl
  call_bound (Call.set key v none) =
      bound s (literal "SET ") (literal ":$k = $v;") _ h refl refl refl
  call_bound (Call.set key v (some t)) =
      bound s (literal "SET ") (literal ":$k = $v EXPIRE $t;") _ h refl refl refl
  call_bound (Call.set_if_absent key v none) =
      bound s (literal "SET ") (literal ":$k = $v IF ABSENT;") _ h refl refl refl
  call_bound (Call.set_if_absent key v (some t)) =
      bound s (literal "SET ") (literal ":$k = $v IF ABSENT EXPIRE $t;") _ h refl refl refl
  call_bound (Call.set_if_present key v none) =
      bound s (literal "SET ") (literal ":$k = $v IF PRESENT;") _ h refl refl refl
  call_bound (Call.set_if_present key v (some t)) =
      bound s (literal "SET ") (literal ":$k = $v IF PRESENT EXPIRE $t;") _ h refl refl refl
  call_bound (Call.compare_and_set key expected v none) =
      bound s (literal "SET ") (literal ":$k = $v IF = $e;") _ h refl refl refl
  call_bound (Call.compare_and_set key expected v (some t)) =
      bound s (literal "SET ") (literal ":$k = $v IF = $e EXPIRE $t;") _ h refl refl refl
  call_bound (Call.keys prefix from limit) = keys_bound prefix from limit
  call_bound (Call.list_pop key front none) =
      bound s (literal "LIST POP ") (literal ":$k FRONT;") _ h refl refl refl
  call_bound (Call.list_pop key front (some count)) =
      bound s (literal "LIST POP ") (literal ":$k FRONT LIMIT $n;") _ h refl refl refl
  call_bound (Call.list_push key front values) =
      numbered_bound s h (literal "LIST PUSH ") (literal ":$k FRONT ") key (literal "v") values refl
        refl λ _. refl
  call_bound (Call.list_pop key back none) =
      bound s (literal "LIST POP ") (literal ":$k BACK;") _ h refl refl refl
  call_bound (Call.list_pop key back (some count)) =
      bound s (literal "LIST POP ") (literal ":$k BACK LIMIT $n;") _ h refl refl refl
  call_bound (Call.list_push key back values) =
      numbered_bound s h (literal "LIST PUSH ") (literal ":$k BACK ") key (literal "v") values refl
        refl λ _. refl
  call_bound (Call.scores_between key none none) =
      bound s (literal "RETURN scores::between(GET ") (literal ":$k, NONE, NONE);") _ h refl refl
        refl
  call_bound (Call.scores_between key none (some b)) =
      bound s (literal "RETURN scores::between(GET ") (literal ":$k, NONE, $hi);") _ h refl refl
        refl
  call_bound (Call.scores_between key (some a) none) =
      bound s (literal "RETURN scores::between(GET ") (literal ":$k, $lo, NONE);") _ h refl refl
        refl
  call_bound (Call.scores_between key (some a) (some b)) =
      bound s (literal "RETURN scores::between(GET ") (literal ":$k, $lo, $hi);") _ h refl refl refl
  call_bound (Call.hash_set key fields) =
      paired_bound s h (literal "HASH SET ") (literal ":$k ") key (literal "f") (literal "v")
        (named_values fields) refl refl refl λ _. refl
  call_bound (Call.scores_add key scores) =
      paired_bound s h (literal "SCORES ADD ") (literal ":$k ") key (literal "m") (literal "c")
        (scored scores) refl refl refl λ _. refl
  call_bound (Call.hash_remove key fields) =
      numbered_bound s h (literal "HASH REMOVE ") (literal ":$k ") key (literal "f")
        (strings fields) refl refl λ _. refl
  call_bound (Call.scores_remove key members) =
      numbered_bound s h (literal "SCORES REMOVE ") (literal ":$k ") key (literal "m")
        (strings members) refl refl λ _. refl
  call_bound (Call.members_add key members) =
      numbered_bound s h (literal "MEMBERS ADD ") (literal ":$k ") key (literal "v") members refl
        refl λ _. refl
  call_bound (Call.members_remove key members) =
      numbered_bound s h (literal "MEMBERS REMOVE ") (literal ":$k ") key (literal "v") members refl
        refl λ _. refl

-- Every statement of a cache handle refers to the parameters that it sends and to no others, and
-- sends none that it does not refer to, whatever the keys, values, members, scores and holders are.
pub rendered_bound :
    (namespace database space : Text) (s : Statements)
    → new namespace database space ≡ ok s
    → (call : Call) → is_bound (rendered s call) ≡ true
rendered_bound namespace database space s e =
    call_bound s (
      Gives-ok IsChecked (new namespace database space) s (new-IsChecked namespace database space)
        e)
