-- ===== src/Cache/Space.antt =====
-- src/cache.rs: a space used as a cache, a counter and a lock. What is around the handle is the state
-- of a session.
use tessaridb_sdk_rust.Common.{
  ℕ, Bool, true, false, Option, none, some, List, [], ◌∷◌, ℤ, pos, Result, ok, err,
  bind as and_then, ok_or, leb, ◌&&◌, if◌then◌else◌,
}
use tessaridb_sdk_rust.Common.Utf8.{Text, literal}
use tessaridb_sdk_rust.Cache.Statements
use tessaridb_sdk_rust.Cache.Statements.{Statements, most_keys, duration, unquoted}
use tessaridb_sdk_rust.Client.Follow.{last}
use tessaridb_sdk_rust.Client.Session.{Session}
use tessaridb_sdk_rust.Error.{Error, malformed, not_a_cache_argument}
use tessaridb_sdk_rust.Statement.{Duration, Rendered, duration_new}
use tessaridb_sdk_rust.Value.{Value, Number}
use tessaridb_sdk_rust.Wire.Answer.{Answer}
use tessaridb_sdk_rust.Wire.Stream.{after}

-- What a key has left.
pub data Ttl : Type 0 where
  expires : Duration → Ttl
  never : Ttl
  absent : Ttl

pub record Lease : Type 0 where
  pub key : Text
  pub holder : Text
  pub ttl : Duration

unfoldable pub required : Duration → Result Error Value
required ttl = ok_or (not_a_cache_argument (literal "a ttl must be positive")) (duration ttl)

unfoldable pub positive : Option Duration → Result Error (Option Value)
unfolding required
positive none = ok none
positive (some ttl) = and_then (required ttl) λ held. ok (some held)

-- `found != Value::None`
unfoldable pub is_held : Value → Bool
is_held Value.none = false
is_held other = true

unfoldable pub if_held : Value → Option Value
if_held Value.none = none
if_held other = some other

unfoldable pub value_of : Option Answer → Result Error Value
value_of (some (Answer.value held names)) = ok held
value_of (some Answer.done) = ok Value.none
value_of other = err malformed

unfoldable pub flag_of : Value → Result Error Bool
flag_of (Value.bool held) = ok held
flag_of other = err malformed

unfoldable pub integer_of : Value → Result Error ℤ
integer_of (Value.number (Number.integer held)) = ok held
integer_of other = err malformed

unfoldable pub ttl_of : Value → Result Error Ttl
ttl_of Value.none = ok absent
ttl_of Value.null = ok never
ttl_of (Value.duration (pos seconds) nanos) = ok (expires (duration_new seconds nanos))
ttl_of other = err malformed

unfoldable pub all_unquoted : List Text → List Text
all_unquoted [] = []
all_unquoted (k ∷ ks) = unquoted k ∷ all_unquoted ks

unfoldable pub keys_of : Option Answer → Result Error (List Text)
unfolding all_unquoted
keys_of (some (Answer.keys held)) = ok (all_unquoted held)
keys_of other = err malformed

-- A holder that is given is not empty, and one that is not given is made up: `fresh` is
-- `fresh_holder`, which reads a counter, the clock and the hasher's random keys.
unfoldable pub holder_for : Text → Option Text → Result Error Text
holder_for fresh none = ok fresh
holder_for fresh (some []) = err (not_a_cache_argument (literal "a lock's holder is not empty"))
holder_for fresh (some (c ∷ cs)) = ok (c ∷ cs)

-- `?` on what was computed before a statement is sent.
unfoldable pub with_result :
    {S A B : Type 0} → Result Error A → S → (A → Result Error B × S) → Result Error B × S
with_result (ok a) s next = next a
with_result (err e) s next = (err e, s)

unfoldable pub or_else : Value → Option Value → Value
or_else made none = made
or_else made (some found) = found

module _ (session : Session) (s : Statements) where
  open session use {State, run_with}

  unfoldable pub send : Rendered → State → Result Error (List Answer) × State
  send (script, given) w = run_with script given w

  unfoldable pub value : Rendered → State → Result Error Value × State
  unfolding send value_of last
  value rendered w = after (send rendered w) λ answers t. (value_of (last answers), t)

  unfoldable pub flag : Rendered → State → Result Error Bool × State
  unfolding value flag_of
  flag rendered w = after (value rendered w) λ held t. (flag_of held, t)

  unfoldable pub get : Text → State → Result Error (Option Value) × State
  unfolding value if_held
  get key w = after (value (Statements.get s key) w) λ found t. (ok (if_held found), t)

  unfoldable pub set : Text → Value → Option Duration → State → Result Error (Unit {0}) × State
  unfolding value with_result
  set key v ttl w =
      with_result (positive ttl) w
        λ lasting. after (value (Statements.set s key v [] none lasting) w) λ _ t. (ok tt, t)

  -- The writes under a condition.
  unfoldable pub set_if :
      Text → Option Value → Text → Value → Option Duration → State → Result Error Bool × State
  unfolding flag with_result
  set_if condition expected key v ttl w =
      with_result (positive ttl) w
        λ lasting. flag (Statements.set s key v condition expected lasting) w

  unfoldable pub set_if_absent : Text → Value → Option Duration → State → Result Error Bool × State
  unfolding set_if
  set_if_absent = set_if (literal " IF ABSENT") none

  unfoldable pub set_if_present : Text → Value → Option Duration → State → Result Error Bool × State
  unfolding set_if
  set_if_present = set_if (literal " IF PRESENT") none

  unfoldable pub compare_and_set :
      Text → Value → Value → Option Duration → State → Result Error Bool × State
  unfolding set_if
  compare_and_set key expected = set_if (literal " IF = $e") (some expected) key

  unfoldable pub delete : Text → State → Result Error Bool × State
  unfolding value is_held
  delete key w = after (value (Statements.delete s key) w) λ before t. (ok (is_held before), t)

  unfoldable pub incr : Text → ℤ → State → Result Error ℤ × State
  unfolding value integer_of
  incr key by w = after (value (Statements.incr s key by) w) λ held t. (integer_of held, t)

  unfoldable pub ttl : Text → State → Result Error Ttl × State
  unfolding value ttl_of
  ttl key w = after (value (Statements.ttl s key) w) λ held t. (ttl_of held, t)

  unfoldable pub expire : Text → Duration → State → Result Error Bool × State
  unfolding flag with_result
  expire key lasting w =
      with_result
        (ok_or
          (not_a_cache_argument (literal "a ttl must be positive: a zero one would remove the key"))
          (duration lasting))
        w λ held. flag (Statements.expire s key held) w

  unfoldable pub persist : Text → State → Result Error Bool × State
  unfolding flag
  persist key w = flag (Statements.persist s key) w

  unfoldable pub keys : Option Text → Option Text → ℕ → State → Result Error (List Text) × State
  unfolding send keys_of last
  keys prefix from limit w =
      let listed =
        after (send (Statements.keys s prefix from limit) w)
          λ answers t. (keys_of (last answers), t) in
      if leb 1 limit && leb limit most_keys
      then listed
      else (err (not_a_cache_argument (literal "a key listing asks for 1 to 1000 keys")), w)

  -- After a lost race the value is read again, and the one made is the answer where it has gone.
  unfoldable pub settle_race : Text → Value → Bool → State → Result Error Value × State
  unfolding get or_else
  settle_race key made true w = (ok made, w)
  settle_race key made false w = after (get key w) λ found t. (ok (or_else made found), t)

  -- `loader` may use anything around the handle.
  unfoldable pub loaded :
      Text → Duration → (State → Value × State) → Option Value → State → Result Error Value × State
  unfolding set_if_absent settle_race
  loaded key lasting loader (some found) w = (ok found, w)
  loaded key lasting loader none w =
      let (made, t) = loader w in
      after (set_if_absent key made (some lasting) t) λ stored u. settle_race key made stored u

  unfoldable pub get_or_set :
      Text → Duration → (State → Value × State) → State → Result Error Value × State
  unfolding get loaded
  get_or_set key lasting loader w = after (get key w) λ found t. loaded key lasting loader found t

  unfoldable pub lease_if : Text → Text → Duration → Bool → Option Lease
  lease_if key holder lasting true = some (record { key = key; holder = holder; ttl = lasting })
  lease_if key holder lasting false = none

  unfoldable pub lock :
      Text → Text → Duration → Option Text → State → Result Error (Option Lease) × State
  unfolding flag holder_for with_result lease_if
  lock fresh key lasting holder w = with_result (holder_for fresh holder) w λ name.
      with_result (required lasting) w λ ttl.
        after (flag (Statements.lock s key name ttl) w)
          λ held t. (ok (lease_if key name lasting held), t)

  -- `ttl.unwrap_or(lease.ttl)`
  unfoldable pub lasting_for : Lease → Option Duration → Duration
  lasting_for lease none = lease.ttl
  lasting_for lease (some ttl) = ttl

  unfoldable pub extend : Lease → Option Duration → State → Result Error Bool × State
  unfolding flag with_result lasting_for
  extend lease ttl w =
      with_result (required (lasting_for lease ttl)) w
        λ lasting. flag (Statements.extend s lease.key lease.holder lasting) w

  unfoldable pub release : Lease → State → Result Error Bool × State
  unfolding flag
  release lease w = flag (Statements.release s lease.key lease.holder) w
