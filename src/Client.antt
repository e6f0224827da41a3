-- ===== src/Client.antt =====
-- src/client.rs: the connection, and what it is asked.
pub mod Follow
pub mod Naming
pub mod Trail
pub mod Sending
pub mod Asking
pub mod Session
pub mod VaultFrame
pub mod Following
use tessaridb_sdk_rust.Common.{
  ℕ, Bool, Option, none, some, List, [], ◌∷◌, Result, ok, err, bind, ltb, if◌then◌else◌,
}
use tessaridb_sdk_rust.Common.Utf8.{Text}
use tessaridb_sdk_rust.Error.{Error, truncated, unknown_frame, node_too_old, refused}
use tessaridb_sdk_rust.Refusal
use tessaridb_sdk_rust.Wire.Answer.{Answer, decode_answers}
use tessaridb_sdk_rust.Wire.Frame
use tessaridb_sdk_rust.Wire.Kind.{Kind, tag}
use tessaridb_sdk_rust.Wire.Redirect
use tessaridb_sdk_rust.Wire.Request.{Request, PresentedKey, encode}
use tessaridb_sdk_rust.Wire.Settlement.{Redirect}
use tessaridb_sdk_rust.Wire.Stream.{Stream, Io, lift, ◌>>=◌, ◌>>◌}

-- `dials` says whether the client can open a connection to another node.
pub record Client (S : Type 0) : Type 0 where
  pub stream : S
  pub peer_minor : Option ℕ
  pub dials : Bool
  pub signed : Option (Text × Text)

pub data Exchanged : Type 0 where
  answers : List Answer → Exchanged
  elsewhere : Redirect → Exchanged

abbrev pub keyed_minor : ℕ
keyed_minor = 7

unfoldable pub requires_minor : Option ℕ → ℕ → Result Error (Unit {0})
requires_minor none needed = ok tt
requires_minor (some found) needed =
    if ltb found needed then err (node_too_old found needed) else ok tt

-- Keys are sent only to a node that reads them.
unfoldable pub check_keys : Option ℕ → List PresentedKey → Result Error (Unit {0})
check_keys minor [] = ok tt
check_keys minor (k ∷ ks) = requires_minor minor keyed_minor

unfoldable pub refusal : List ℕ → Error
refusal body = refused (Refusal.read body).1 (Refusal.read body).0

-- The `match` of `exchange`.
unfoldable pub reply : Option (Kind × List ℕ) → Result Error Exchanged
unfolding refusal
reply none = err truncated
reply (some (Kind.answer, body)) = bind (decode_answers body) λ held. ok (answers held)
reply (some (Kind.refusal, body)) = err (refusal body)
reply (some (Kind.elsewhere, body)) = bind (Redirect.decode body) λ held. ok (elsewhere held)
reply (some (other, body)) = err (unknown_frame (tag other))

-- What was done on the stream of a client.
abbrev pub on_stream : {S A : Type 0} → Client S → Result Error A × S → Result Error A × Client S
on_stream c (r, s) = (r, record c { stream = s })

-- The stream's part of `exchange`.
unfoldable pub ask : (net : Stream) → Request → Io net.State Exchanged
unfolding reply
ask net request = do
  Frame.write net Kind.request (encode request)
  arrived ← Frame.read net
  lift (reply arrived)

-- An early return before anything is sent.
unfoldable pub if_allowed :
    {A B C : Type 0} → Result Error B → C → Result Error A × C → Result Error A × C
if_allowed (ok u) unchanged done = done
if_allowed (err e) unchanged done = (err e, unchanged)

unfoldable pub exchange :
    (net : Stream) → Request → Client net.State → Result Error Exchanged × Client net.State
unfolding check_keys ask if_allowed
exchange net request c =
    if_allowed (check_keys c.peer_minor request.keys) c (on_stream c (ask net request c.stream))
