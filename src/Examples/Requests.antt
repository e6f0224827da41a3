-- ===== src/Examples/Requests.antt =====
-- A request and a subscription at concrete inputs.
use tessaridb_sdk_rust.Common.{◌≡◌, refl, none, some, [], ◌∷◌, replicate, arith, ok}
use tessaridb_sdk_rust.Codec.Write.{
  encode as encode_value, put_value, put_u32, put_lenbytes, count_of, put_fields,
}
use tessaridb_sdk_rust.Common.Bytes.{to_be_bytes}
use tessaridb_sdk_rust.Value.{Value, of_entries, entries, length_fields}
use tessaridb_sdk_rust.Value.Valid.{IsValid, depth}
use tessaridb_sdk_rust.Wire.Body.RoundTrip.{IsCarried}
use tessaridb_sdk_rust.Wire.Push.{Follow, encode as encode_follow}
use tessaridb_sdk_rust.Wire.Push.Subscribing.{read_follow, IsFollow, read_follow-encode}
use tessaridb_sdk_rust.Wire.Request.{Request, encode}
use tessaridb_sdk_rust.Wire.Request.Reading.{read_request, IsRequest, read_request-encode}
use tessaridb_sdk_rust.Examples.Wire.{letter_t-IsText}

null_here : IsCarried Value.null
unfolding IsValid depth encode_value put_value
null_here = record { valid = tt; shallow = omega arith; short = omega arith }

abbrev keyed : Request
keyed = record {
  script = b't' ∷ [];
  credentials = some (b't' ∷ [], b't' ∷ []);
  parameters = (b't' ∷ [], Value.null) ∷ [];
  keys =
      record {
        namespace = b't' ∷ [];
        database = b't' ∷ [];
        vault = b't' ∷ [];
        key = replicate 32 7;
      }
      ∷ [];
}

keyed-IsRequest : IsRequest keyed
unfolding replicate
keyed-IsRequest = record {
  script = (letter_t-IsText, omega arith);
  credentials = ((letter_t-IsText, omega arith), (letter_t-IsText, omega arith));
  few = omega arith;
  parameters = (((letter_t-IsText, omega arith), null_here), tt);
  few_keys = omega arith;
  keys = (
    (
      (letter_t-IsText, omega arith),
      (letter_t-IsText, omega arith),
      (letter_t-IsText, omega arith),
      refl,
    ),
    tt,
  );
}

read_request-encode_example : read_request (encode keyed) ≡ ok (keyed, [])
read_request-encode_example = read_request-encode keyed keyed-IsRequest

object_here : IsCarried (Value.object (of_entries ((b't' ∷ [], Value.null) ∷ [])))
unfolding IsValid depth encode_value put_value put_fields put_u32 put_lenbytes count_of to_be_bytes
    of_entries entries length_fields
object_here = record {
  valid = (omega arith, (tt, tt), ((letter_t-IsText, omega arith), tt, tt));
  shallow = omega arith;
  short = omega arith;
}

abbrev narrowed : Follow
narrowed = record {
  from = 7;
  table = some (b't' ∷ []);
  cursor = none;
  condition = some (b't' ∷ []);
  parameters = (b't' ∷ [], Value.null) ∷ [];
}

narrowed-IsFollow : IsFollow narrowed
narrowed-IsFollow = record {
  from = omega arith;
  table = (letter_t-IsText, omega arith);
  cursor = tt;
  condition = ((letter_t-IsText, omega arith), object_here);
}

read_follow-encode_example : read_follow (encode_follow narrowed) ≡ ok (narrowed, [])
read_follow-encode_example = read_follow-encode narrowed narrowed-IsFollow
