-- ===== src/Examples/Wire.antt =====
-- Frames, greetings, refusals and redirects at concrete inputs, on a connection that gives a byte at
-- a time.
use tessaridb_sdk_rust.Common.{
  ℕ, ◌≡◌, ◌≢◌, refl, some, List, [], ◌∷◌, ◌++◌, arith, replicate, ok, err,
}
use tessaridb_sdk_rust.Common.Bytes.{to_be_bytes}
use tessaridb_sdk_rust.Common.Utf8.{IsText, valid_utf8}
use tessaridb_sdk_rust.Error.{truncated, too_large}
use tessaridb_sdk_rust.Refusal
use tessaridb_sdk_rust.Refusal.Class.{conflict}
use tessaridb_sdk_rust.Refusal.Reading.{read_classed}
use tessaridb_sdk_rust.Wire.Stream.{Ends}
use tessaridb_sdk_rust.Wire.Kind.{Kind, tag}
use tessaridb_sdk_rust.Wire.Frame.{header, read, write, greet}
use tessaridb_sdk_rust.Wire.Frame.Protocol.{greeting, major, minor}
use tessaridb_sdk_rust.Wire.Frame.Reading.{read-frame, read_too_large}
use tessaridb_sdk_rust.Wire.Frame.Cut.{read_cut}
use tessaridb_sdk_rust.Wire.Frame.Writing.{write-frame, greet_node}
use tessaridb_sdk_rust.Wire.Settlement.{Redirect, transient}
use tessaridb_sdk_rust.Wire.Redirect.{decode}
use tessaridb_sdk_rust.Wire.Redirect.RoundTrip.{elsewhere_body, decode-elsewhere_body}
use tessaridb_sdk_rust.Examples.Trickle.{trickle, trickle-IsReliable, line}

read-frame_example :
    Ends trickle trickle-IsReliable
      (read trickle (line (header Kind.change 2 ++ 8 ∷ 9 ∷ 7 ∷ [])))
      (ok (some (Kind.change, 8 ∷ 9 ∷ [])))
      (7 ∷ [])
      []
read-frame_example =
    read-frame trickle trickle-IsReliable Kind.change (8 ∷ 9 ∷ []) (7 ∷ [])
      (line (header Kind.change 2 ++ 8 ∷ 9 ∷ 7 ∷ [])) (omega arith) refl

read_too_large_example :
    Ends trickle trickle-IsReliable
      (read trickle (line (header Kind.answer 0x0100_0001 ++ 7 ∷ [])))
      (err (too_large 0x0100_0001))
      (7 ∷ [])
      []
read_too_large_example =
    read_too_large trickle trickle-IsReliable Kind.answer 0x0100_0001 (7 ∷ [])
      (line (header Kind.answer 0x0100_0001 ++ 7 ∷ [])) (omega arith) (omega arith) refl

-- The frame `02 00 00 00 02 08 09` cut after its sixth byte.
read_cut_example :
    Ends trickle trickle-IsReliable
      (read trickle (line (2 ∷ 0 ∷ 0 ∷ 0 ∷ 2 ∷ 8 ∷ [])))
      (err truncated)
      []
      []
unfolding header tag to_be_bytes
read_cut_example =
    read_cut trickle trickle-IsReliable Kind.answer (8 ∷ 9 ∷ []) (2 ∷ 0 ∷ 0 ∷ 0 ∷ 2 ∷ 8 ∷ []) 9 []
      (line (2 ∷ 0 ∷ 0 ∷ 0 ∷ 2 ∷ 8 ∷ [])) (omega arith) refl refl

write-frame_example :
    Ends trickle trickle-IsReliable
      (write trickle Kind.request (8 ∷ []) (line (7 ∷ [])))
      (ok tt)
      (7 ∷ [])
      (header Kind.request 1 ++ 8 ∷ [])
write-frame_example =
    write-frame trickle trickle-IsReliable Kind.request (8 ∷ []) (line (7 ∷ [])) (omega arith)

greet_node_example :
    Ends trickle trickle-IsReliable
      (greet trickle (line (greeting ++ 1 ∷ 7 ∷ [])))
      (ok 7)
      []
      (greeting ++ major ∷ minor ∷ [])
greet_node_example =
    greet_node trickle trickle-IsReliable 1 7 [] (line (greeting ++ 1 ∷ 7 ∷ [])) refl

abbrev node_id : List ℕ
node_id = 1 ∷ 2 ∷ 3 ∷ 4 ∷ 5 ∷ 6 ∷ 7 ∷ 8 ∷ 9 ∷ 10 ∷ 11 ∷ 12 ∷ 13 ∷ 14 ∷ 15 ∷ 16 ∷ []

-- One byte more than the ceiling.
abbrev too_long : List ℕ
too_long = replicate 0x0100_0001 0

abbrev http : List ℕ
http = b'H' ∷ b'T' ∷ b'T' ∷ b'P' ∷ []

http-ne-greeting : http ≢ greeting
http-ne-greeting e = ground arith

pub letter_t-IsText : IsText (b't' ∷ [])
unfolding valid_utf8
letter_t-IsText = record { bytes = omega arith; utf8 = refl }

read_classed_example : Refusal.read (7 ∷ b't' ∷ []) ≡ (some conflict, b't' ∷ [])
read_classed_example = read_classed conflict (b't' ∷ []) letter_t-IsText

abbrev here : Redirect
here = record { node = node_id; epoch = 5; settlement = transient; endpoint = b't' ∷ [] }

decode-elsewhere_body_example : decode (elsewhere_body node_id 5 2 (b't' ∷ []) ++ 9 ∷ []) ≡ ok here
decode-elsewhere_body_example =
    decode-elsewhere_body here (9 ∷ [])
      (record { node = refl; epoch = omega arith; endpoint = (letter_t-IsText, omega arith) })
