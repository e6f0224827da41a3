-- ===== src/Examples/Mapping.antt =====
-- src/mapping/ at a concrete array, whose second element is no number.
use tessaridb_sdk_rust.Common.{◌≡◌, refl, true, pos, err}
use tessaridb_sdk_rust.Common.Utf8.{literal}
use tessaridb_sdk_rust.Cache.Containers.{list_of}
use tessaridb_sdk_rust.Mapping.{
  wrong_type, at_element, integer_from, sequence_from, elements_from, in_element, mismatch, name_of,
}
use tessaridb_sdk_rust.Mapping.Elements.{Says, sequence_from-Says}
use tessaridb_sdk_rust.Value.{Value, Number, Items, no_items, item}

abbrev mixed : Items
mixed =
    item (Value.number (Number.integer (pos 7))) (item Value.null (item (Value.bool true) no_items))

mixed_refused :
    sequence_from integer_from (Value.array mixed)
    ≡ err (at_element 1 (wrong_type (literal "a whole number") (literal "null")))
unfolding sequence_from elements_from in_element integer_from mismatch name_of list_of
mixed_refused = refl

sequence_from-Says_example :
    Says integer_from 0 (list_of mixed) (sequence_from integer_from (Value.array mixed))
    × Says integer_from 0 (list_of mixed) (sequence_from integer_from (Value.set mixed))
sequence_from-Says_example = sequence_from-Says integer_from mixed
