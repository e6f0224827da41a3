-- ===== src/Examples/Client.antt =====
-- A redirect followed, and a request answered, on connections that give a byte at a time.
use tessaridb_sdk_rust.Common.{
  ℕ, ◌≤◌, ◌<◌, ◌≢◌, ◌⊎◌, err, ◌≡◌, refl, true, none, some, List, [], ◌∷◌, ◌++◌, Result, ok, arith,
  length,
}
use tessaridb_sdk_rust.Common.Utf8.{utf8_from, valid_utf8}
use tessaridb_sdk_rust.Common.SortedMap.{insert}
use tessaridb_sdk_rust.Common.Bytes.{to_be_bytes, from_be_bytes}
use tessaridb_sdk_rust.Common.{put_each, take_each}
use tessaridb_sdk_rust.Common.{split_at}
use tessaridb_sdk_rust.Wire.Kind.{tag, from_tag}
use tessaridb_sdk_rust.Wire.Frame.{
  header, declared_length, parse_header, on_chunk, write, read_header, read_body, read_after, read,
}
use tessaridb_sdk_rust.Wire.Body.{
  put_u32, put_u64, put_bytes, put_text, take, take_u8, take_u32, take_u64, take_bytes,
  text_of_bytes, take_text, if_more, as_error, take_encoded,
}
use tessaridb_sdk_rust.Wire.Answer.{
  take_names_into, take_names, take_value_answer, decode_tagged, decode_one, decode_outcome,
  take_outcome, decode_answers,
}
use tessaridb_sdk_rust.Wire.Request.{new, put_credentials, put_parameter, put_keys, encode}
use tessaridb_sdk_rust.Codec.Write.{
  put_u32 as write_put_u32, count_of, put_lenbytes, encode as write_encode, put_value, put_fields,
}
use tessaridb_sdk_rust.Codec.Reader.{
  take as reader_take, take_u8 as reader_take_u8, take_fixed, take_u32 as reader_take_u32,
  take_lenbytes, from_utf8, take_text as reader_take_text,
}
use tessaridb_sdk_rust.Codec.Read.{take_entries, take_tagged, take_value, finish, decode}
use tessaridb_sdk_rust.Client.{requires_minor, check_keys, reply, ask, if_allowed, exchange}
use tessaridb_sdk_rust.Client.Follow.{
  get, text_of, uuid_of, last, context_of, context_from, same_node, check_node, selected, kept,
  context, select, arrive, hop, moved, follow_on, follow,
}
use tessaridb_sdk_rust.Value.{length_fields, entries, of_entries}
use tessaridb_sdk_rust.Refusal.Class.{text_eq}
use tessaridb_sdk_rust.Common.Utf8.{Text, literal}
use tessaridb_sdk_rust.Client.{Client, Exchanged}
use tessaridb_sdk_rust.Wire.Redirect.{decode as redirect_decode}
use tessaridb_sdk_rust.Wire.Redirect.RoundTrip.{elsewhere_body}
use tessaridb_sdk_rust.Client.Trail.{IsTrail, follow-IsTrail}
use tessaridb_sdk_rust.Client.Asking.{IsReadBy, Understood, exchange-reply}
use tessaridb_sdk_rust.Error.{Error, node_too_old}
use tessaridb_sdk_rust.Value.{Value, no_fields, field}
use tessaridb_sdk_rust.Wire.Answer.{done}
use tessaridb_sdk_rust.Wire.Answer.Framing.{answer_body, framed}
use tessaridb_sdk_rust.Wire.Kind.{Kind}
use tessaridb_sdk_rust.Wire.Frame.Protocol.{ceiling}
use tessaridb_sdk_rust.Wire.Request.{Request}
use tessaridb_sdk_rust.Wire.Settlement.{Redirect, transient}
use tessaridb_sdk_rust.Examples.Trickle.{trickle, trickle-IsReliable, line, Line}

abbrev node_id : List ℕ
node_id = 1 ∷ 2 ∷ 3 ∷ 4 ∷ 5 ∷ 6 ∷ 7 ∷ 8 ∷ 9 ∷ 10 ∷ 11 ∷ 12 ∷ 13 ∷ 14 ∷ 15 ∷ 16 ∷ []

abbrev there : Redirect
there = record { node = node_id; epoch = 5; settlement = transient; endpoint = literal "b:1" }

-- The answer of the node there to the question which node it is.
abbrev said : List ℕ
said = answer_body (
    (2
      ∷ (put_u32 0
          ++ put_bytes (
              write_encode (Value.object (field (literal "node") (Value.uuid node_id) no_fields)))))
    ∷ [])

abbrev dialed : Client Line
dialed = record {
  stream = line (
      header Kind.answer (length said)
      ++ (said ++ (header Kind.answer 9 ++ answer_body ((0 ∷ []) ∷ []))));
  peer_minor = some 7;
  dials = true;
  signed = none;
}

abbrev dial_there : Text → Unit {0} → Result Error (Client Line) × Unit {0}
dial_there endpoint world = (ok dialed, world)

abbrev here : Client Line
here = record { stream = line []; peer_minor = some 7; dials = true; signed = none }

abbrev asking : Request
asking = record { script = literal "x"; credentials = none; parameters = []; keys = [] }

followed_there :
    follow trickle dial_there 3 asking none 0 there here tt ≡ (ok (done ∷ []), here, tt)
unfolding utf8_from valid_utf8 insert to_be_bytes from_be_bytes put_each take_each split_at tag
    from_tag header declared_length parse_header on_chunk write read_header read_body read_after
    read put_u32 put_u64 put_bytes put_text take take_u8 take_u32 take_u64 take_bytes text_of_bytes
    take_text if_more as_error take_encoded take_names_into take_names take_value_answer
    decode_tagged decode_one decode_outcome take_outcome decode_answers new put_credentials
    put_parameter put_keys encode write_put_u32 count_of put_lenbytes write_encode put_value
    put_fields reader_take reader_take_u8 take_fixed reader_take_u32 take_lenbytes from_utf8
    reader_take_text take_entries take_tagged take_value finish decode requires_minor check_keys
    reply ask if_allowed exchange get text_of uuid_of last context_of context_from same_node
    check_node selected kept context select arrive hop moved follow_on follow length_fields entries
    of_entries text_eq answer_body framed
followed_there = refl

follow-IsTrail_example :
    IsTrail trickle dial_there asking none here 3 0 there tt (done ∷ []) here tt
follow-IsTrail_example =
    follow-IsTrail trickle dial_there 3 asking none 0 there here tt (done ∷ []) here tt
      followed_there

abbrev asked : Client Line
asked = record {
  stream = line (header Kind.refusal 2 ++ (7 ∷ b't' ∷ 9 ∷ []));
  peer_minor = some 7;
  dials = true;
  signed = none;
}

short_enough : length (encode asking) ≤ ceiling
unfolding encode put_text put_bytes put_u32 count_of put_credentials put_keys put_each to_be_bytes
short_enough = omega arith

exchange-reply_example :
    ((found : ℕ) × (asked.peer_minor ≡ some found)
      × (found < 7)
      × (asking.keys ≢ [])
      × (exchange trickle asking asked ≡ (err (node_too_old found 7), asked)))
    ⊎ (IsReadBy asked.peer_minor asking.keys
        × ((t : Line) × (r : Result Error Exchanged) × (exchange trickle asking asked
              ≡ (r, record asked { stream = t }))
            × Understood Kind.refusal (7 ∷ b't' ∷ []) r
            × (t.incoming ≡ 9 ∷ [])
            × (t.outgoing ≡ header Kind.request (length (encode asking)) ++ encode asking)))
exchange-reply_example =
    exchange-reply trickle trickle-IsReliable asking Kind.refusal (7 ∷ b't' ∷ []) (9 ∷ []) asked
      short_enough (omega arith) refl

abbrev moved_on : List ℕ
moved_on = elsewhere_body node_id 5 2 (literal "b:1")

abbrev question : Request
question = record {
  script = literal "RETURN session::context();";
  credentials = none;
  parameters = [];
  keys = [];
}

abbrev redirected_here : Client Line
redirected_here = record {
  stream = line (
      header Kind.elsewhere (length moved_on)
      ++ (moved_on ++ (header Kind.answer (length said) ++ said)));
  peer_minor = some 7;
  dials = true;
  signed = none;
}

abbrev left_here : Client Line
left_here = record {
  stream = record {
    incoming = [];
    outgoing =
        (header Kind.request (length (encode asking)) ++ encode asking)
        ++ (header Kind.request (length (encode question)) ++ encode question);
  };
  peer_minor = some 7;
  dials = true;
  signed = none;
}
