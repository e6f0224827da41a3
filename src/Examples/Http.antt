-- ===== src/Examples/Http.antt =====
-- src/http/ at concrete inputs: a node that answers with the bytes of a line.
use tessaridb_sdk_rust.Common.{
  ℕ, ◌+◌, ◌<◌, ◌≡◌, ◌==◌, none, some, List, [], ◌∷◌, ◌++◌, Result, ok, All, arith, max,
  if◌then◌else◌,
}
use tessaridb_sdk_rust.Common.Utf8.{Text, literal}
use tessaridb_sdk_rust.Cache.Statements.{unquoted}
use tessaridb_sdk_rust.Error.{IoFault}
use tessaridb_sdk_rust.Examples.Trickle.{Line, trickle}
use tessaridb_sdk_rust.Http.Events.{quoted}
use tessaridb_sdk_rust.Http.Events.Escapes.{scan_literal, unquoted-quoted}
use tessaridb_sdk_rust.Http.Json.{JsonLibrary}
use tessaridb_sdk_rust.Http.Operations.{
  Operations, whatever, at, as_user, with_attempts, exchange, send, open_session,
}
use tessaridb_sdk_rust.Http.Operations.Retry.{Exhausted, send-Exhausted}
use tessaridb_sdk_rust.Http.Operations.Leaving.{left_with}
use tessaridb_sdk_rust.Http.Paths.{encode}
use tessaridb_sdk_rust.Http.Paths.Decoding.{AllStand, decode, encode_lem}
use tessaridb_sdk_rust.Http.Reply.{header_ceiling, read_headers, read_headers_from}
use tessaridb_sdk_rust.Http.Reply.Bound.{read_headers-ends}

path_bytes : All (λ b. b < 256) (literal "a %")
path_bytes = (omega arith, (omega arith, (omega arith, tt)))

encode_lem_example :
    AllStand (encode (literal "a %")) × (decode (encode (literal "a %")) ≡ literal "a %")
encode_lem_example = encode_lem (literal "a %") path_bytes

unquoted-quoted_example :
    (scan_literal (quoted (literal "it's") ++ literal "; x") ≡ some (literal "it's", literal "; x"))
    × (unquoted (quoted (literal "it's")) ≡ literal "it's")
unquoted-quoted_example = unquoted-quoted (literal "it's") (literal "; x")

-- `read_line`, on the bytes that are still to come.
abbrev cut_line : List ℕ → List ℕ × List ℕ
cut_line [] = ([], [])
cut_line (c ∷ cs) =
    let (line, rest) = cut_line cs in if c == b'\n' then (c ∷ [], cs) else (c ∷ line, rest)

abbrev next_line : Line → Result IoFault Text × Line
next_line s = (ok (cut_line s.incoming).0, record s { incoming = (cut_line s.incoming).1 })

abbrev connect : Text → Line → Result IoFault (Unit {0}) × Line
connect address s = (ok tt, s)

abbrev unchanged : Line → Line
unchanged s = s

-- A JSON text that is a string without quotes, and has itself as every field.
abbrev words : JsonLibrary
words = record {
  Json = List ℕ;
  from_slice = λ bytes. some bytes;
  get = λ held name. some held;
  as_str = λ held. some held;
  as_u64 = λ held. none;
  trimmed = λ bytes. bytes;
}

abbrev end_line : Text
end_line = b'\r' ∷ b'\n' ∷ []

abbrev answering : Line
answering = record {
  incoming =
      literal "HTTP/1.1 200 OK"
      ++ (end_line ++ (literal "Content-Length: 3" ++ (end_line ++ (end_line ++ literal "tok"))));
  outgoing = [];
}

read_headers-ends_example :
    read_headers_from trickle next_line (header_ceiling + 1 + 5) 0 none answering
    ≡ read_headers trickle next_line answering
read_headers-ends_example = read_headers-ends trickle next_line 5 answering

abbrev twice : Operations
twice = with_attempts 2 (at (literal "node:80"))

send-Exhausted_example :
    Exhausted unchanged
      (exchange trickle next_line connect unchanged twice
        (literal "GET")
        (literal "/health")
        none
        whatever)
      (max 1 twice.attempts)
      answering
      (send trickle next_line connect unchanged twice
        (literal "GET")
        (literal "/health")
        none
        answering)
send-Exhausted_example =
    send-Exhausted trickle next_line connect unchanged twice (literal "GET") (literal "/health")
      none answering

abbrev signed : Operations
signed = as_user (literal "ada") (literal "pw") twice

abbrev opened : Operations × Line
opened = left_with (open_session trickle next_line connect unchanged words signed answering)
