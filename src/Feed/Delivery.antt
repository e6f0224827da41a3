-- ===== src/Feed/Delivery.antt =====
-- src/feed.rs: what a node sends on a feed is handed over in order, whatever chunks it arrives in.
use tessaridb_sdk_rust.Common.{
  ℕ, zero, suc, ◌≤◌, ◌≡◌, refl, sym, ◌∙◌, ap, true, false, Option, none, some, List, [], ◌∷◌, ◌++◌,
  append-nil, append_assoc, length, All, Result, ok, err,
}
use tessaridb_sdk_rust.Common.Utf8.{Text, IsText}
use tessaridb_sdk_rust.Error.{Error, refused}
use tessaridb_sdk_rust.Refusal.Class.{RefusalClass}
use tessaridb_sdk_rust.Refusal.Reading.{class_byte, read_classed}
use tessaridb_sdk_rust.Value.Valid.{IsU64}
use tessaridb_sdk_rust.Wire.Stream.{Stream, IsReliable}
use tessaridb_sdk_rust.Wire.Kind.{Kind}
use tessaridb_sdk_rust.Wire.Frame.{header}
use tessaridb_sdk_rust.Wire.Frame.Protocol.{ceiling}
use tessaridb_sdk_rust.Wire.Frame.Reading.{read-frame}
use tessaridb_sdk_rust.Wire.Frame.Cut.{read_ended}
use tessaridb_sdk_rust.Wire.Push.{Arrival}
use tessaridb_sdk_rust.Wire.Push.RoundTrip.{
  IsChange, IsCursor, change_body, progress_body, decode_change-body, decode_progress-body,
}
use tessaridb_sdk_rust.Feed.{Feed, deliver, refused_with, settle, next}

-- The frame that brings an arrival.
abbrev pub kind_of : Arrival → Kind
kind_of (Arrival.change c) = Kind.change
kind_of (Arrival.progress p) = Kind.progress

abbrev pub body_of : Arrival → List ℕ
body_of (Arrival.change c) = change_body c
body_of (Arrival.progress p) = progress_body p

abbrev pub IsArrival : Arrival → Type 0
IsArrival (Arrival.change c) = IsChange c × (length (change_body c) ≤ ceiling)
IsArrival (Arrival.progress p) =
    IsU64 p.sequence × IsCursor p.cursor × (length (progress_body p) ≤ ceiling)

abbrev pub frame_bytes : Kind → List ℕ → List ℕ
frame_bytes kind body = header kind (length body) ++ body

unfoldable pub feed_bytes : List Arrival → List ℕ
feed_bytes [] = []
feed_bytes (a ∷ as') = frame_bytes (kind_of a) (body_of a) ++ feed_bytes as'

-- How a feed ends: the node closes the connection, or refuses in its own words.
pub data Farewell : Type 0 where
  closed : Farewell
  refusal : RefusalClass → Text → Farewell

abbrev pub farewell_bytes : Farewell → List ℕ
farewell_bytes closed = []
farewell_bytes (refusal class message) = frame_bytes Kind.refusal (class_byte class ∷ message)

abbrev pub IsFarewell : Farewell → Type 0
IsFarewell closed = Unit {0}
IsFarewell (refusal class message) = IsText message × (suc (length message) ≤ ceiling)

-- The loop of a subscriber that takes what arrives until the feed ends, with the fault that it
-- met, if any.
unfoldable pub drain_from :
    {S : Type 0}
    → (Feed S → List Arrival × Option Error × Feed S)
    → Result Error (Option Arrival) × Feed S
    → List Arrival × Option Error × Feed S
drain_from again (err e, feed) = ([], some e, feed)
drain_from again (ok none, feed) = ([], none, feed)
drain_from again (ok (some a), feed) = (a ∷ (again feed).0, (again feed).1, (again feed).2)

unfoldable pub drain :
    (net : Stream) → ℕ → Feed net.State → List Arrival × Option Error × Feed net.State
unfolding drain_from
drain net zero feed = ([], none, feed)
drain net (suc rounds) feed = drain_from (drain net rounds) (next net feed)

abbrev pub fault_of : Farewell → Option Error
fault_of closed = none
fault_of (refusal class message) = some (refused message (some class))

module _ (net : Stream) (law : IsReliable net) where
  open net use {State}
  open law use {pending, sent}

  next-arrival :
      (a : Arrival) (rest : List ℕ) (feed : Feed State)
      → IsArrival a
      → feed.finished ≡ false
      → pending feed.stream ≡ frame_bytes (kind_of a) (body_of a) ++ rest
      → (t : State) × (next net feed ≡ (ok (some a), record { stream = t; finished = false }))
        × (pending t ≡ rest)
  unfolding next settle deliver
  next-arrival (Arrival.change c) rest feed h f p =
      let got =
        read-frame net law Kind.change (change_body c) rest feed.stream h.1
          (p ∙ append_assoc (header Kind.change (length (change_body c))) (change_body c) rest) in
      (got.last, rw (f, got.ends_with, decode_change-body c h.0), got.leaves)
  next-arrival (Arrival.progress q) rest feed h f p =
      let got = read-frame net law Kind.progress (progress_body q) rest feed.stream h.2 (
        p
        ∙ append_assoc (header Kind.progress (length (progress_body q))) (progress_body q) rest) in
      (got.last, rw (f, got.ends_with, decode_progress-body q h.0 h.1), got.leaves)

  drain-farewell :
      (farewell : Farewell) (feed : Feed State)
      → IsFarewell farewell
      → feed.finished ≡ false
      → pending feed.stream ≡ farewell_bytes farewell
      → (t : State) × (drain net 1 feed
          ≡ ([], fault_of farewell, record { stream = t; finished = true }))
  unfolding drain drain_from next settle deliver refused_with
  drain-farewell closed feed h f p =
      let got = read_ended net law feed.stream p in (got.last, rw (f, got.ends_with))
  drain-farewell (refusal class message) feed h f p =
      let got = read-frame net law Kind.refusal (class_byte class ∷ message) [] feed.stream h.1 (
        p
        ∙ ap (λ words. header Kind.refusal (suc (length message)) ++ class_byte class ∷ words)
            (sym (append-nil message))) in
      (got.last, rw (f, got.ends_with, read_classed class message h.0))

  drain-next :
      (rounds : ℕ) (feed then_feed last_feed : Feed State) (a : Arrival) (as' : List Arrival)
      (fault : Option Error)
      → next net feed ≡ (ok (some a), then_feed)
      → drain net rounds then_feed ≡ (as', fault, last_feed)
      → drain net (suc rounds) feed ≡ (a ∷ as', fault, last_feed)
  unfolding drain drain_from
  drain-next rounds feed then_feed last_feed a as' fault e e' = rw (e, e')

  -- A subscriber is handed every change and every progress report in the order in which the node
  -- sent them, none lost and none repeated, and then what ended the feed: a refusal with its class
  -- and its message, or a clean close. The feed then knows that it has ended.
  pub drain-feed :
      (arrivals : List Arrival) (farewell : Farewell) (feed : Feed State)
      → All IsArrival arrivals
      → IsFarewell farewell
      → feed.finished ≡ false
      → pending feed.stream ≡ feed_bytes arrivals ++ farewell_bytes farewell
      → (t : State) × (drain net (suc (length arrivals)) feed
          ≡ (arrivals, fault_of farewell, record { stream = t; finished = true }))
  unfolding feed_bytes
  drain-feed [] farewell feed h g f p = drain-farewell farewell feed g f p
  drain-feed (a ∷ as') farewell feed h g f p =
      let (t, got, left) = next-arrival a (feed_bytes as' ++ farewell_bytes farewell) feed h.0 f (
        p
        ∙ append_assoc (frame_bytes (kind_of a) (body_of a)) (feed_bytes as')
            (farewell_bytes farewell)) in
      let (u, rest) =
        drain-feed as' farewell (record { stream = t; finished = false }) h.1 g refl left in
      (
        u,
        drain-next (suc (length as')) feed (record { stream = t; finished = false }) _ a as' _ got
            rest,
      )
