-- ===== src/Examples/Answers.antt =====
-- Answers, changes and feeds at concrete inputs.
use tessaridb_sdk_rust.Common.{
  ◌≤◌, ◌≡◌, refl, true, false, none, some, List, [], ◌∷◌, ◌++◌, arith, length, split_at, ok,
}
use tessaridb_sdk_rust.Common.Bytes.{to_be_bytes}
use tessaridb_sdk_rust.Codec.Write.{encode, count_of, put_value}
use tessaridb_sdk_rust.Value.{Value}
use tessaridb_sdk_rust.Value.Valid.{IsValid, depth}
use tessaridb_sdk_rust.Refusal.Class.{conflict}
use tessaridb_sdk_rust.Wire.Frame.Protocol.{ceiling}
use tessaridb_sdk_rust.Wire.Body.{put_u64, put_text, put_u32, put_bytes, take_u8, take}
use tessaridb_sdk_rust.Wire.Body.RoundTrip.{IsCarried}
use tessaridb_sdk_rust.Wire.Push.{Change, Progress, Arrival, removed, decode_change}
use tessaridb_sdk_rust.Wire.Push.RoundTrip.{
  IsChange, change_body, progress_body, decode_change-body,
}
use tessaridb_sdk_rust.Wire.Answer.{
  done, unknown, exact, not_sought, decode_answers, decode_outcome, decode_one, decode_tagged,
}
use tessaridb_sdk_rust.Wire.Answer.Framing.{
  answer_body, decode_all, decode_answers-body, decode_answers_unknown,
}
use tessaridb_sdk_rust.Wire.Answer.Layout.{records_outcome, answered, noted_suggested}
use tessaridb_sdk_rust.Wire.Answer.Appended.{decode_outcome-records}
use tessaridb_sdk_rust.Feed.Delivery.{
  Farewell, refusal, farewell_bytes, fault_of, feed_bytes, drain, drain-feed,
}
use tessaridb_sdk_rust.Examples.Trickle.{trickle, trickle-IsReliable, line, Line}
use tessaridb_sdk_rust.Examples.Wire.{letter_t-IsText}

abbrev gone : Change
gone = record {
  sequence = 41;
  table = b't' ∷ [];
  id = b't' ∷ [];
  became = removed;
  cursor = some (b't' ∷ []);
}

gone-IsChange : IsChange gone
gone-IsChange = record {
  sequence = omega arith;
  table = (letter_t-IsText, omega arith);
  id = (letter_t-IsText, omega arith);
  became = tt;
  cursor = (letter_t-IsText, omega arith);
}

decode_change-body_example : decode_change (change_body gone) ≡ ok gone
decode_change-body_example = decode_change-body gone gone-IsChange

abbrev so_far : Progress
so_far = record { sequence = 44; cursor = none }

done_read : decode_all ((0 ∷ []) ∷ []) ≡ ok (done ∷ [])
unfolding decode_all decode_outcome decode_one decode_tagged take_u8 take split_at
done_read = refl

decode_answers-body_example :
    decode_answers (answer_body ((0 ∷ []) ∷ (0 ∷ 5 ∷ []) ∷ []) ++ 9 ∷ [])
    ≡ decode_all ((0 ∷ []) ∷ (0 ∷ 5 ∷ []) ∷ [])
decode_answers-body_example =
    decode_answers-body ((0 ∷ []) ∷ (0 ∷ 5 ∷ []) ∷ []) (9 ∷ []) (omega arith) (omega arith)

decode_answers_unknown_example :
    decode_answers (answer_body ((0 ∷ []) ∷ (99 ∷ 1 ∷ []) ∷ (0 ∷ []) ∷ []))
    ≡ ok (done ∷ unknown ∷ done ∷ [])
decode_answers_unknown_example =
    decode_answers_unknown ((0 ∷ []) ∷ []) ((0 ∷ []) ∷ []) 99 (1 ∷ []) (done ∷ []) (done ∷ [])
      (omega arith) (omega arith) (omega arith) done_read done_read

null-IsCarried : IsCarried Value.null
unfolding IsValid depth encode put_value
null-IsCarried = record { valid = tt; shallow = omega arith; short = omega arith }

decode_outcome-records_example :
    decode_outcome (
      records_outcome 1
        ((7, b't' ∷ []) ∷ [])
        ((b't' ∷ [], Value.null) ∷ [])
        (noted_suggested [] true exact not_sought (5 ∷ [])))
    ≡ ok (
        answered 1
          ((7, b't' ∷ []) ∷ [])
          ((b't' ∷ [], Value.null) ∷ [])
          (noted_suggested [] true exact not_sought (5 ∷ [])))
decode_outcome-records_example =
    decode_outcome-records 1 ((7, b't' ∷ []) ∷ []) ((b't' ∷ [], Value.null) ∷ [])
      (noted_suggested [] true exact not_sought (5 ∷ []))
      (omega arith, (tt, tt), ((omega arith, (letter_t-IsText, omega arith)), tt))
      (omega arith, (((letter_t-IsText, omega arith), null-IsCarried), tt))
      ((omega arith, tt), tt, tt)

abbrev two : List Arrival
two = Arrival.change gone ∷ Arrival.progress so_far ∷ []

abbrev last_word : Farewell
last_word = refusal conflict (b't' ∷ [])

length-gone : length (change_body gone) ≤ ceiling
unfolding change_body put_u64 put_text put_bytes put_u32 count_of to_be_bytes
length-gone = omega arith

length-so_far : length (progress_body so_far) ≤ ceiling
unfolding progress_body put_u64 to_be_bytes
length-so_far = omega arith

drain-feed_example :
    (t : Line) × (drain trickle 3
        (record { stream = line (feed_bytes two ++ farewell_bytes last_word); finished = false })
      ≡ (two, fault_of last_word, record { stream = t; finished = true }))
drain-feed_example =
    drain-feed trickle trickle-IsReliable two last_word
      (record { stream = line (feed_bytes two ++ farewell_bytes last_word); finished = false })
      ((gone-IsChange, length-gone), ((omega arith, tt, length-so_far), tt))
      (letter_t-IsText, omega arith) refl refl
