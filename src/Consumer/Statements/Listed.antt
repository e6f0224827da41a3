-- ===== src/Consumer/Statements/Listed.antt =====
-- src/consumer/statements.rs, the loop of `settle`: the positions that a statement lists.
use tessaridb_sdk_rust.Common.{
  ℕ, zero, suc, ◌<◌, ◌^◌, ◌≡◌, ◌∙◌, ap, refl, true, List, [], ◌∷◌, ◌++◌, pos, ok, All, lt→ltb,
  append_assoc,
}
use tessaridb_sdk_rust.Common.Utf8.{Text, literal}
use tessaridb_sdk_rust.Consumer.Statements.{separator, settle_from, position_value}
use tessaridb_sdk_rust.Query.Binder.{parameter_name}
use tessaridb_sdk_rust.Query.Names.{all_continue, continues_name, is_digit, opens_name, is_letter}
use tessaridb_sdk_rust.Statement.References.{
  references, names_of, ends_name, references-reference, all_continue-decimal,
}
use tessaridb_sdk_rust.Value.{Value, Number}

-- The positions as the values that are sent.
unfoldable pub position_values : List ℕ → List Value
position_values [] = []
position_values (p ∷ ps) = Value.number (Number.integer (pos p)) ∷ position_values ps

unfoldable pub values_of : List (Text × Value) → List Value
values_of [] = []
values_of ((name, v) ∷ rest) = v ∷ values_of rest

-- References to these parameters, with a comma between two of them.
unfoldable pub further : List (Text × Value) → Text
further [] = []
further ((name, v) ∷ rest) = literal ", $" ++ (name ++ further rest)

unfoldable pub listed : List (Text × Value) → Text
unfolding further
listed [] = []
listed ((name, v) ∷ rest) = literal "$" ++ (name ++ further rest)

-- From a place on: only the first place of all has no comma in front.
unfoldable pub listed_from : ℕ → List (Text × Value) → Text
listed_from zero given = listed given
listed_from (suc index) given = further given

-- What the loop writes from a place on: a reference for each position, in order, bound to it.
pub record IsSettling (index : ℕ) (positions : List ℕ) : Type 0 where
  pub script : Text
  pub given : List (Text × Value)
  pub comes_to : settle_from index positions ≡ ok (script, given)
  pub spelled : script ≡ listed_from index given
  pub holds : values_of given ≡ position_values positions
  pub refers :
      (behind : Text)
      → ends_name behind ≡ true
      → references (script ++ behind) ≡ names_of given ++ references behind
  pub ends_there : (behind : Text) → ends_name behind ≡ true → ends_name (script ++ behind) ≡ true

name_continues : (index : ℕ) → all_continue (parameter_name index) ≡ true
unfolding parameter_name all_continue continues_name is_digit opens_name is_letter
name_continues index = all_continue-decimal index

ends_name-separator : (index : ℕ) (rest : Text) → ends_name (separator index ++ b'$' ∷ rest) ≡ true
unfolding separator ends_name continues_name is_digit opens_name is_letter
ends_name-separator zero rest = refl
ends_name-separator (suc index) rest = refl

references-separator :
    (index : ℕ) (behind : Text) → references (separator index ++ behind) ≡ references behind
unfolding separator references
references-separator zero behind = refl
references-separator (suc index) behind = refl

position_held : (p : ℕ) → p < 2 ^ 63 → position_value p ≡ ok (Value.number (Number.integer (pos p)))
unfolding position_value
position_held p h = rw (lt→ltb p (2 ^ 63) h)

nothing_listed : (index : ℕ) → [] ≡ listed_from index []
unfolding listed_from listed further
nothing_listed zero = refl
nothing_listed (suc index) = refl

listed_next :
    (index : ℕ) (name : Text) (v : Value) (given : List (Text × Value))
    → separator index ++ b'$' ∷ (name ++ listed_from (suc index) given)
      ≡ listed_from index ((name, v) ∷ given)
unfolding listed_from listed further separator
listed_next zero name v given = refl
listed_next (suc index) name v given = refl

pub settle_from-IsSettling :
    (index : ℕ) (positions : List ℕ) → All (λ p. p < 2 ^ 63) positions → IsSettling index positions
unfolding settle_from values_of position_values names_of
settle_from-IsSettling index [] h = record {
  script = [];
  given = [];
  comes_to = refl;
  spelled = nothing_listed index;
  holds = refl;
  refers = λ behind e. refl;
  ends_there = λ behind e. e;
}
settle_from-IsSettling index (p ∷ ps) h =
    let later = settle_from-IsSettling (suc index) ps h.1 in
    record {
      script = separator index ++ b'$' ∷ (parameter_name index ++ later.script);
      given = (parameter_name index, Value.number (Number.integer (pos p))) ∷ later.given;
      comes_to = rw (position_held p h.0, later.comes_to);
      spelled = rw later.spelled (
          listed_next index (parameter_name index) (Value.number (Number.integer (pos p)))
            later.given);
      holds = rw later.holds;
      refers = λ behind e.
          rw
            (
              append_assoc (separator index) (b'$' ∷ (parameter_name index ++ later.script)) behind,
              references-separator index
                  ((b'$' ∷ (parameter_name index ++ later.script)) ++ behind),
              append_assoc (parameter_name index) later.script behind,
            )
            (references-reference (parameter_name index) (later.script ++ behind)
                (name_continues index) (later.ends_there behind e)
              ∙ ap (λ names. parameter_name index ∷ names) (later.refers behind e));
      ends_there = λ behind e.
          rw (append_assoc (separator index) (b'$' ∷ (parameter_name index ++ later.script)) behind)
            (ends_name-separator index ((parameter_name index ++ later.script) ++ behind));
    }
