-- ===== src/Client/Following.antt =====
-- src/client.rs, `follow`: a connection that stops asking and is told of changes.
use tessaridb_sdk_rust.Common.{ℕ, Option, none, some, Result, ok, err}
use tessaridb_sdk_rust.Common.Utf8.{Text}
use tessaridb_sdk_rust.Client.{Client, requires_minor}
use tessaridb_sdk_rust.Error.{Error}
use tessaridb_sdk_rust.Feed.{Feed, new}
use tessaridb_sdk_rust.Wire.Frame
use tessaridb_sdk_rust.Wire.Kind.{Kind}
use tessaridb_sdk_rust.Wire.Push.{Follow, encode}
use tessaridb_sdk_rust.Wire.Stream.{Stream, Io, fail, ◌>>◌}

abbrev pub condition_minor : ℕ
condition_minor = 4

-- A condition is sent only to a node that reads it.
unfoldable pub check_condition : Option ℕ → Option Text → Result Error (Unit {0})
unfolding requires_minor
check_condition minor none = ok tt
check_condition minor (some condition) = requires_minor minor condition_minor

-- `return Err(…)`, or the steps that follow.
unfoldable pub once : {S A : Type 0} → Result Error (Unit {0}) → Io S A → Io S A
once (ok u) steps = steps
once (err e) steps = fail e

-- The client is used up: the stream is all that is left of it.
unfoldable pub follow :
    (net : Stream) → Follow → Client net.State → Result Error (Feed net.State) × net.State
unfolding check_condition once
follow net asked c =
    once (check_condition c.peer_minor asked.condition)
      (do Frame.write net Kind.subscribe (encode asked); (λ s. (ok (new s), s))) c.stream
