-- ===== src/Consumer/Statements/Bound.antt =====
-- src/consumer/statements.rs: the positions that a statement settles.
use tessaridb_sdk_rust.Common.{
  ℕ, ◌+◌, ◌*◌, ◌/◌, ◌==◌, if◌then◌else◌, ◌≡◌, true, Option, none, some, List, [], ◌++◌, Result, ok,
}
use tessaridb_sdk_rust.Common.Utf8.{Text, literal}
use tessaridb_sdk_rust.Consumer.Statements.{Statements}
use tessaridb_sdk_rust.Consumer.Statements.Listed.{position_values, values_of, listed}
use tessaridb_sdk_rust.Error.{Error}
use tessaridb_sdk_rust.Statement.{Duration, Rendered, decimal_wide}
use tessaridb_sdk_rust.Statement.References.{references, names_of, no_dollar}
use tessaridb_sdk_rust.Value.{Value}

-- The names in the statements were checked.
abbrev pub IsChecked : Statements → Type 0
IsChecked s = (no_dollar s.tenancy ≡ true) × (no_dollar s.topic ≡ true) × (no_dollar s.group ≡ true)

-- `ACK` or `NACK` of these references, for the group and on the topic that the consumer was made with.
unfoldable pub settling : Text → Statements → List (Text × Value) → Text → Text
settling verb s given tail =
    s.tenancy
    ++ (verb
        ++ (s.topic
            ++ (literal " FOR CONSUMER '"
                ++ (s.group ++ (literal "' AT " ++ (listed given ++ (tail ++ literal ";")))))))

-- How long the positions are held back: whole milliseconds, and nothing where there are none.
unfoldable pub held_back : Option Duration → Text
held_back none = []
held_back (some d) =
    let millis = d.secs * 1_000 + d.subsec_nanos / 1_000_000 in
    let tail = literal " DELAY " ++ (decimal_wide millis ++ literal "ms") in
    if millis == 0 then [] else tail

-- One statement that begins with this verb settles every one of these positions, with no other
-- parameter.
abbrev pub SettlesEach : Text → Text → Statements → List ℕ → Result Error Rendered → Type 0
SettlesEach verb tail s positions outcome =
    (given : List (Text × Value)) × (outcome ≡ ok (settling verb s given tail, given))
    × (values_of given ≡ position_values positions)
    × (references (settling verb s given tail) ≡ names_of given)
