-- ===== src/Http/Calls.antt =====
-- src/http/mod.rs, src/http/object.rs and src/http/series.rs: backups, files, events, metrics and conditions.
use tessaridb_sdk_rust.Common.{
  ℕ, Option, none, some, List, ◌∷◌, ◌++◌, Result, ok, err, bind as and_then, ok_or, ltb, leb, ◌==◌,
  ◌&&◌, if◌then◌else◌,
}
use tessaridb_sdk_rust.Common.Utf8.{Text, literal}
use tessaridb_sdk_rust.Cache.Space.{with_result}
use tessaridb_sdk_rust.Error.{IoFault, Error, malformed}
use tessaridb_sdk_rust.Http.Events.{batch}
use tessaridb_sdk_rust.Http.Json.{JsonLibrary, Condition, condition, refusal, chain}
use tessaridb_sdk_rust.Http.Operations.{Operations, whatever, open_with, exchange, send, expect}
use tessaridb_sdk_rust.Http.Paths.{route}
use tessaridb_sdk_rust.Http.Reply.{Reply, read_into}
use tessaridb_sdk_rust.Query.Decimal.{decimal}
use tessaridb_sdk_rust.Value.{Value}
use tessaridb_sdk_rust.Wire.Body.{text_of_bytes}
use tessaridb_sdk_rust.Wire.Stream.{Stream, Io, lift, ◌>>=◌}

-- A bucket and a series hold the same: a handle and three names.
pub record Named : Type 0 where
  pub node : Operations
  pub namespace : Text
  pub database : Text
  pub name : Text

unfoldable pub new : Operations → Text → Text → Text → Named
new node namespace database name = record {
  node = node;
  namespace = namespace;
  database = database;
  name = name;
}

unfoldable pub path_in : Named → Text → Text
path_in bucket path = route bucket.namespace bucket.database bucket.name path

unfoldable pub series_path : Named → Text
series_path s = literal "/series/" ++ (s.namespace ++ b'/' ∷ (s.database ++ b'/' ∷ s.name))

module _ (net : Stream) (next_line : net.State → Result IoFault Text × net.State)
    (connect : Text → net.State → Result IoFault (Unit {0}) × net.State)
    (pause : net.State → net.State) (json : JsonLibrary) where
  open net use {State}
  open json use {from_slice, get as get_field, as_u64}

  unfoldable pub get : Operations → Text → Io State Reply
  get ops path = send net next_line connect pause ops (literal "GET") path none >>= λ reply. lift (
      if leb 200 reply.status && ltb reply.status 300
      then ok reply
      else err (refusal json reply.status reply.body))

  unfoldable pub metrics : Operations → Io State Text
  unfolding get
  metrics ops = get ops (literal "/metrics") >>= λ reply. lift (text_of_bytes reply.body)

  -- A node that is leaving answers 503.
  unfoldable pub condition_in : Reply → Result Error Condition
  condition_in reply =
      if reply.status == 200
      then condition json reply.body
      else if reply.status == 503
      then condition json reply.body
      else err (refusal json reply.status reply.body)

  unfoldable pub condition_at : Operations → Text → Io State Condition
  unfolding condition_in
  condition_at ops path =
      send net next_line connect pause ops (literal "GET") path none >>= λ reply.
      lift (condition_in reply)

  unfoldable pub health : Operations → Io State Condition
  unfolding condition_at
  health ops = condition_at ops (literal "/health")

  unfoldable pub ready : Operations → Io State Condition
  unfolding condition_at
  ready ops = condition_at ops (literal "/ready")

  unfoldable pub put_file : Named → Text → List ℕ → Io State (Unit {0})
  unfolding path_in
  put_file bucket path bytes =
      send net next_line connect pause bucket.node (literal "PUT") (path_in bucket path)
        (some bytes)
      >>= λ reply. lift (expect net next_line connect pause json 201 reply)

  unfoldable pub file_in : Reply → Result Error (Option (List ℕ))
  file_in reply =
      if reply.status == 200
      then ok (some reply.body)
      else if reply.status == 404
      then ok none
      else err (refusal json reply.status reply.body)

  unfoldable pub get_file : Named → Text → Io State (Option (List ℕ))
  unfolding path_in file_in
  get_file bucket path =
      send net next_line connect pause bucket.node (literal "GET") (path_in bucket path) none
      >>= λ reply. lift (file_in reply)

  unfoldable pub some_size : Option ℕ → Result Error (Option ℕ)
  some_size none = err malformed
  some_size (some size) = ok (some size)

  unfoldable pub size_in : Reply → Result Error (Option ℕ)
  unfolding some_size
  size_in reply =
      if reply.status == 200
      then some_size reply.length
      else if reply.status == 404
      then ok none
      else err (refusal json reply.status reply.body)

  unfoldable pub size_of : Named → Text → Io State (Option ℕ)
  unfolding path_in size_in
  size_of bucket path =
      send net next_line connect pause bucket.node (literal "HEAD") (path_in bucket path) none
      >>= λ reply. lift (size_in reply)

  unfoldable pub delete_file : Named → Text → Io State (Unit {0})
  unfolding path_in
  delete_file bucket path =
      send net next_line connect pause bucket.node (literal "DELETE") (path_in bucket path) none
      >>= λ reply. lift (expect net next_line connect pause json 204 reply)

  unfoldable pub appended_in : Reply → Result Error ℕ
  unfolding chain
  appended_in reply = and_then (expect net next_line connect pause json 200 reply) λ _.
      ok_or malformed (
        chain (chain (from_slice reply.body) λ answer. get_field answer (literal "appended"))
          λ held. as_u64 held)

  -- Sent once: a batch that is sent twice lands twice.
  unfoldable pub append : (ℕ → Text) → Named → List Value → Io State ℕ
  unfolding appended_in series_path with_result
  append show_float s events w = with_result (batch show_float events) w λ body.
      (exchange net next_line connect pause s.node (literal "POST") (series_path s) (some body)
            whatever
          >>= λ reply. lift (appended_in reply))
        w

  -- The sink of a backup is in the state.
  module _ (write : List ℕ → State → Result IoFault (Unit {0}) × State)
      (flush : State → Result IoFault (Unit {0}) × State) where
    unfoldable pub stream_into : Operations → Text → Io State Reply
    stream_into ops path =
        open_with net next_line connect pause ops (literal "GET") path none whatever >>= λ _.
        read_into net next_line write flush

    unfoldable pub backed_up : Operations → Text → Io State ℕ
    unfolding stream_into
    backed_up ops path = stream_into ops path >>= λ reply. lift (
        and_then (expect net next_line connect pause json 200 reply)
          λ _. ok_or malformed reply.length)

    unfoldable pub backup : Operations → Io State ℕ
    unfolding backed_up
    backup ops = backed_up ops (literal "/backup")

    unfoldable pub backup_from : Operations → ℕ → Io State ℕ
    unfolding backed_up
    backup_from ops from = backed_up ops (literal "/backup?from=" ++ decimal from)
