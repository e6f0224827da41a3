-- ===== src/Client/VaultFrame.antt =====
-- src/client.rs, `vault_frame`: one vault frame, and the value it is answered with.
use tessaridb_sdk_rust.Common.{ℕ, Option, none, some, List, Result, ok, err, bind}
use tessaridb_sdk_rust.Client.{Client, requires_minor, refusal, on_stream, if_allowed}
use tessaridb_sdk_rust.Client.Follow.{last}
use tessaridb_sdk_rust.Error.{Error, malformed, truncated, unknown_frame}
use tessaridb_sdk_rust.Value.{Value}
use tessaridb_sdk_rust.Wire.Answer.{Answer, decode_answers}
use tessaridb_sdk_rust.Wire.Frame
use tessaridb_sdk_rust.Wire.Kind.{Kind, tag}
use tessaridb_sdk_rust.Wire.Stream.{Stream, Io, lift, ◌>>=◌, ◌>>◌}

abbrev pub vault_minor : ℕ
vault_minor = 2

unfoldable pub status_value : Option Answer → Result Error Value
status_value (some (Answer.value held names)) = ok held
status_value other = err malformed

-- The `match` of `vault_frame`.
unfoldable pub vault_reply : Option (Kind × List ℕ) → Result Error Value
unfolding refusal status_value last
vault_reply none = err truncated
vault_reply (some (Kind.answer, body)) = bind (decode_answers body) λ held. status_value (last held)
vault_reply (some (Kind.refusal, body)) = err (refusal body)
vault_reply (some (other, body)) = err (unknown_frame (tag other))

-- The stream's part.
unfoldable pub ask_vault : (net : Stream) → List ℕ → Io net.State Value
unfolding vault_reply
ask_vault net body = do
  Frame.write net Kind.vault body
  arrived ← Frame.read net
  lift (vault_reply arrived)

unfoldable pub vault_frame :
    (net : Stream) → List ℕ → Client net.State → Result Error Value × Client net.State
unfolding requires_minor ask_vault if_allowed
vault_frame net body c =
    if_allowed (requires_minor c.peer_minor vault_minor) c
      (on_stream c (ask_vault net body c.stream))
