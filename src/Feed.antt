-- ===== src/Feed.antt =====
-- src/feed.rs: changes, as they arrive on a connection that asked to follow.
pub mod Delivery
use tessaridb_sdk_rust.Common.{
  ℕ, Bool, true, false, Option, none, some, List, Result, ok, err, bind, if◌then◌else◌,
}
use tessaridb_sdk_rust.Error.{Error, refused, unknown_frame}
use tessaridb_sdk_rust.Refusal
use tessaridb_sdk_rust.Wire.Stream.{Stream}
use tessaridb_sdk_rust.Wire.Kind.{Kind, tag}
use tessaridb_sdk_rust.Wire.Frame
use tessaridb_sdk_rust.Wire.Push.{Arrival, decode_change, decode_progress}

pub record Feed (S : Type 0) : Type 0 where
  pub stream : S
  pub finished : Bool

unfoldable pub new : {S : Type 0} → S → Feed S
new stream = record { stream = stream; finished = false }

unfoldable pub refused_with : List ℕ → Error
refused_with body = refused (Refusal.read body).1 (Refusal.read body).0

-- The `match` of `next`: what is handed over for a frame, and whether the feed has ended.
unfoldable pub deliver : Kind → List ℕ → Result Error (Option Arrival) × Bool
unfolding refused_with
deliver Kind.change body =
    (bind (decode_change body) (λ change. ok (some (Arrival.change change))), false)
deliver Kind.progress body =
    (bind (decode_progress body) (λ progress. ok (some (Arrival.progress progress))), false)
deliver Kind.refusal body = (err (refused_with body), true)
deliver other body = (err (unknown_frame (tag other)), true)

unfoldable pub settle :
    {S : Type 0}
    → Result Error (Option (Kind × List ℕ)) × S
    → Result Error (Option Arrival) × Feed S
unfolding deliver
settle (err e, stream) = (err e, record { stream = stream; finished = false })
settle (ok none, stream) = (ok none, record { stream = stream; finished = true })
settle (ok (some (kind, body)), stream) =
    ((deliver kind body).0, record { stream = stream; finished = (deliver kind body).1 })

unfoldable pub next :
    (net : Stream) → Feed net.State → Result Error (Option Arrival) × Feed net.State
unfolding settle
next net feed =
    let arrived = settle (Frame.read net feed.stream) in
    if feed.finished then (ok none, feed) else arrived
