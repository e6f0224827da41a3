-- ===== src/Consumer/Statements.antt =====
-- src/consumer/statements.rs: the statements that a consumer sends.
pub mod Listed
pub mod Bound
use tessaridb_sdk_rust.Common.{
  ℕ, zero, suc, ◌^◌, Bool, true, false, Option, none, some, List, [], ◌∷◌, ◌++◌, pos, Result, ok,
  err, bind as and_then, ltb, if◌then◌else◌,
}
use tessaridb_sdk_rust.Common.Utf8.{Text, literal}
use tessaridb_sdk_rust.Error.{Error, malformed}
use tessaridb_sdk_rust.Query.Binder.{parameter_name}
use tessaridb_sdk_rust.Query.Decimal.{decimal}
use tessaridb_sdk_rust.Query.Fault.{BuildError, not_a_group_name}
use tessaridb_sdk_rust.Query.Names.{check_name}
use tessaridb_sdk_rust.Statement.{Duration, Rendered, tenancy_of, is_quotable, delay_tail}
use tessaridb_sdk_rust.Value.{Value, Number}

pub record Statements : Type 0 where
  pub tenancy : Text
  pub topic : Text
  pub group : Text

unfoldable pub new : Text → Text → Text → Text → Result BuildError Statements
new namespace database topic group = and_then (check_name (literal "namespace") namespace) λ _.
    and_then (check_name (literal "database") database) λ _.
      and_then (check_name (literal "topic") topic) λ _.
        (if is_quotable group
          then ok (record { tenancy = tenancy_of namespace database; topic = topic; group = group })
          else err (not_a_group_name group))

unfoldable pub read : Statements → ℕ → Text
read s limit =
    s.tenancy
    ++ (literal "READ FROM "
        ++ (s.topic
            ++ (literal " FOR CONSUMER '"
                ++ (s.group ++ (literal "' LIMIT " ++ (decimal limit ++ literal ";"))))))

-- `i64::try_from(*position)`
unfoldable pub position_value : ℕ → Result Error Value
position_value position =
    if ltb position (2 ^ 63)
    then ok (Value.number (Number.integer (pos position)))
    else err malformed

-- The text between the parts of a list.
unfoldable pub separator : ℕ → Text
separator zero = []
separator (suc index) = literal ", "

-- The loop over the positions, from `index` on: the references written, and what they bind to.
unfoldable pub settle_from : ℕ → List ℕ → Result Error Rendered
unfolding separator
settle_from index [] = ok ([], [])
settle_from index (position ∷ rest) = and_then (position_value position) λ held.
    and_then (settle_from (suc index) rest) λ (script, given). ok (
      separator index ++ b'$' ∷ (parameter_name index ++ script),
      (parameter_name index, held) ∷ given,
    )

unfoldable pub settle : Statements → Text → List ℕ → Text → Result Error Rendered
settle s verb positions tail = and_then (settle_from 0 positions) λ (references, given). ok (
  s.tenancy
      ++ (verb
          ++ (literal " "
              ++ (s.topic
                  ++ (literal " FOR CONSUMER '"
                      ++ (s.group
                          ++ (literal "' AT " ++ (references ++ (tail ++ literal ";")))))))),
  given,
)

unfoldable pub ack : Statements → List ℕ → Result Error Rendered
ack s positions = settle s (literal "ACK") positions []

unfoldable pub nack : Statements → List ℕ → Option Duration → Result Error Rendered
nack s positions delay = settle s (literal "NACK") positions (delay_tail (literal " DELAY ") delay)
