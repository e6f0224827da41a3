-- ===== src/Consumer/Run.antt =====
-- src/consumer.rs: reading a topic and settling each message.
use tessaridb_sdk_rust.Common.{
  ℕ, Bool, true, false, Option, none, some, List, [], ◌∷◌, Result, ok, err, bind as and_then, ok_or,
  max, if◌then◌else◌,
}
use tessaridb_sdk_rust.Common.Utf8.{Text, literal}
use tessaridb_sdk_rust.Client.Follow.{get, last}
use tessaridb_sdk_rust.Client.Session.{Session}
use tessaridb_sdk_rust.Consumer.Statements
use tessaridb_sdk_rust.Consumer.Statements.{Statements}
use tessaridb_sdk_rust.Error.{Error, malformed}
use tessaridb_sdk_rust.Polling
use tessaridb_sdk_rust.Polling.{Tried, got, again, failed}
use tessaridb_sdk_rust.Statement.{Duration, Rendered, whole}
use tessaridb_sdk_rust.Value.{Value, entries}
use tessaridb_sdk_rust.Wire.Answer.{Answer}
use tessaridb_sdk_rust.Wire.Stream.{after}

pub record Message : Type 0 where
  pub position : ℕ
  pub value : Value
  pub deliveries : ℕ

-- What a manual handler decides of a message.
pub data Settle : Type 0 where
  ack : Settle
  nack : Option Duration → Settle
  leave : Settle

-- The connection and the signal are in the state that the operations take.
pub record Consumer : Type 0 where
  pub statements : Statements
  pub batch : ℕ

unfoldable pub new : Statements → Consumer
new statements = record { statements = statements; batch = 10 }

unfoldable pub with_batch : ℕ → Consumer → Consumer
with_batch batch c = record c { batch = max batch 1 }

-- `unwrap_or(Value::None)`
unfoldable pub held_or_none : Option Value → Value
held_or_none none = Value.none
held_or_none (some v) = v

unfoldable pub message : Value → Result Error Message
unfolding get held_or_none
message (Value.object fields) =
    and_then (ok_or malformed (whole (get (entries fields) (literal "position")))) λ position.
      and_then (ok_or malformed (whole (get (entries fields) (literal "deliveries")))) λ deliveries.
        ok (record {
          position = position;
          value = held_or_none (get (entries fields) (literal "value"));
          deliveries = deliveries;
        })
message other = err malformed

unfoldable pub messages : List (Text × Value) → Result Error (List Message)
unfolding message
messages [] = ok []
messages ((id, body) ∷ rest) =
    and_then (message body) λ first. and_then (messages rest) λ later. ok (first ∷ later)

unfoldable pub handed_out : Option Answer → Result Error (List Message)
unfolding messages
handed_out (some (Answer.found held)) = messages held.records
handed_out other = err malformed

-- Only a read that found nothing is made again.
unfoldable pub tried : Result Error (List Message) → Tried Message
tried (ok []) = again
tried (ok (m ∷ ms)) = got (m ∷ ms)
tried (err e) = failed e

-- How many were in flight.
unfoldable pub settled : Option Answer → Result Error ℕ
settled (some (Answer.value held names)) = ok_or malformed (whole (some held))
settled other = err malformed

module _ (session : Session) (c : Consumer) where
  open session use {State, run_with}

  unfoldable pub settle : Result Error Rendered → State → Result Error ℕ × State
  unfolding settled last
  settle (err e) s = (err e, s)
  settle (ok (script, given)) s =
      after (run_with script given s) λ answers t. (settled (last answers), t)

  unfoldable pub acknowledge : List ℕ → State → Result Error ℕ × State
  unfolding settle
  acknowledge [] s = (ok 0, s)
  acknowledge (p ∷ ps) s = settle (Statements.ack c.statements (p ∷ ps)) s

  unfoldable pub give_back : List ℕ → Option Duration → State → Result Error ℕ × State
  unfolding settle
  give_back [] delay s = (ok 0, s)
  give_back (p ∷ ps) delay s = settle (Statements.nack c.statements (p ∷ ps) delay) s

  unfoldable pub try_once : State → Tried Message × State
  unfolding handed_out tried last
  try_once s =
      let (found, t) =
        after (run_with (Statements.read c.statements c.batch) [] s)
          λ answers u. (handed_out (last answers), u) in
      (tried found, t)

  module _ (is_stopped : State → Bool) (pause : ℕ → State → State) where
    -- The body of the loops: after a stop the messages that are left are not handed back.
    unfoldable pub work :
        (Message → State → Result Error (Unit {0}) × State)
        → List Message
        → State
        → Result Error Bool × State
    work settle_one [] s = (ok false, s)
    work settle_one (m ∷ ms) s =
        after (settle_one m s)
          λ _ t. (let seen = work settle_one ms t in if is_stopped t then (ok true, t) else seen)

    -- `self.ack(…).await?`, its count unused.
    unfoldable pub ignored : Result Error ℕ × State → Result Error (Unit {0}) × State
    ignored r = after r λ _ t. (ok tt, t)

    unfoldable pub settle_auto :
        (Message → State → Bool × State) → Message → State → Result Error (Unit {0}) × State
    unfolding acknowledge give_back ignored
    settle_auto handler m s =
        let (succeeded, t) = handler m s in
        if succeeded
        then ignored (acknowledge (m.position ∷ []) t)
        else ignored (give_back (m.position ∷ []) none t)

    unfoldable pub settle_as : Message → Settle × State → Result Error (Unit {0}) × State
    unfolding acknowledge give_back ignored
    settle_as m (ack, t) = ignored (acknowledge (m.position ∷ []) t)
    settle_as m (nack delay, t) = ignored (give_back (m.position ∷ []) delay t)
    settle_as m (leave, t) = (ok tt, t)

    unfoldable pub run_auto :
        (Message → State → Bool × State) → ℕ → ℕ → State → Option (Result Error (Unit {0})) × State
    unfolding try_once work settle_auto
    run_auto handler = Polling.run is_stopped pause try_once (work (settle_auto handler))

    unfoldable pub run_manual :
        (Message → State → Settle × State)
        → ℕ
        → ℕ
        → State
        → Option (Result Error (Unit {0})) × State
    unfolding try_once work settle_as
    run_manual handler =
        Polling.run is_stopped pause try_once (work (λ m s. settle_as m (handler m s)))
