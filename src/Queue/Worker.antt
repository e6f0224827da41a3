-- ===== src/Queue/Worker.antt =====
-- src/queue.rs: claiming records and settling each.
use tessaridb_sdk_rust.Common.{
  ℕ, Bool, true, false, Option, none, some, List, [], ◌∷◌, Result, ok, err, bind as and_then, ok_or,
  if◌then◌else◌,
}
use tessaridb_sdk_rust.Common.Utf8.{Text, literal}
use tessaridb_sdk_rust.Client.Follow.{get, last}
use tessaridb_sdk_rust.Client.Session.{Session}
use tessaridb_sdk_rust.Error.{Error, malformed, refused}
use tessaridb_sdk_rust.Polling
use tessaridb_sdk_rust.Polling.{Tried, got, again, failed}
use tessaridb_sdk_rust.Query.Filter.{Filter}
use tessaridb_sdk_rust.Queue.Statements
use tessaridb_sdk_rust.Queue.Statements.{Statements}
use tessaridb_sdk_rust.Refusal.Class.{retry, text_eq}
use tessaridb_sdk_rust.Statement.{Duration, Rendered, whole, built}
use tessaridb_sdk_rust.Value.{Value, entries, of_entries}
use tessaridb_sdk_rust.Wire.Answer.{Answer}
use tessaridb_sdk_rust.Wire.Stream.{after}

pub record Job : Type 0 where
  pub id : Text
  pub value : Value
  pub attempts : ℕ

-- What a handler decides of a job.
pub data Handled : Type 0 where
  done : Handled
  release : Option Duration → Handled
  leave : Handled

-- The connection and the signal are in the state that the operations take.
pub record Queue : Type 0 where
  pub statements : Statements
  pub batch : ℕ
  pub narrowed : Option Filter

unfoldable pub new : Statements → Queue
new statements = record { statements = statements; batch = 10; narrowed = none }

unfoldable pub with_batch : ℕ → Queue → Queue
with_batch batch q = record q { batch = batch }

unfoldable pub only : Filter → Queue → Queue
only filter q = record q { narrowed = some filter }

-- `BTreeMap::remove`
unfoldable pub remove : Text → List (Text × Value) → List (Text × Value)
remove key [] = []
remove key ((k, v) ∷ rest) =
    let later = remove key rest in if text_eq k key then later else (k, v) ∷ later

-- The fields that the engine keeps are no part of the work.
unfoldable pub job : Text → Value → Result Error Job
unfolding get remove
job id (Value.object fields) =
    and_then (ok_or malformed (whole (get (entries fields) (literal "attempts")))) λ attempts.
      ok (record {
        id = id;
        value = Value.object (
            of_entries (
              remove (literal "claimed_by")
                (remove (literal "claimed_until") (remove (literal "attempts") (entries fields)))));
        attempts = attempts;
      })
job id other = err malformed

unfoldable pub jobs : List (Text × Value) → Result Error (List Job)
unfolding job
jobs [] = ok []
jobs ((id, body) ∷ rest) =
    and_then (job id body) λ first. and_then (jobs rest) λ later. ok (first ∷ later)

unfoldable pub claimed : Option Answer → Result Error (List Job)
unfolding jobs
claimed (some (Answer.found held)) = jobs held.records
claimed other = err malformed

-- A claim that found nothing, or that was refused for now, is made again.
unfoldable pub tried : Result Error (List Job) → Tried Job
tried (ok []) = again
tried (ok (j ∷ js)) = got (j ∷ js)
tried (err (refused message (some retry))) = again
tried (err e) = failed e

module _ (session : Session) (q : Queue) where
  open session use {State, run_with}

  unfoldable pub sent : Result Error Rendered → State → Result Error (List Answer) × State
  sent (err e) s = (err e, s)
  sent (ok (script, given)) s = run_with script given s

  unfoldable pub claim : ℕ → Option Filter → State → Result Error (List Job) × State
  unfolding sent claimed last
  claim count filter s =
      after (sent (built (Statements.claim q.statements count filter)) s)
        λ answers t. (claimed (last answers), t)

  unfoldable pub finish : Job → State → Result Error (Unit {0}) × State
  finish j s = after (run_with (Statements.done q.statements j.id) [] s) λ answers t. (ok tt, t)

  unfoldable pub give_back : Job → Option Duration → State → Result Error (Unit {0}) × State
  give_back j delay s =
      after (run_with (Statements.release q.statements j.id delay) [] s) λ answers t. (ok tt, t)

  unfoldable pub hand_back : List Job → State → Result Error (Unit {0}) × State
  unfolding give_back
  hand_back [] s = (ok tt, s)
  hand_back (j ∷ js) s = after (give_back j none s) λ _ t. hand_back js t

  unfoldable pub try_once : State → Tried Job × State
  unfolding claim tried
  try_once s = let (found, t) = claim q.batch q.narrowed s in (tried found, t)

  module _ (is_stopped : State → Bool) (pause : ℕ → State → State) where
    -- The body of the loops: `settle` calls the handler and settles its job.
    unfoldable pub work :
        (Job → State → Result Error (Unit {0}) × State)
        → List Job
        → State
        → Result Error Bool × State
    unfolding hand_back
    work settle [] s = (ok false, s)
    work settle (j ∷ js) s = after (settle j s) λ _ t.
        (let unseen = after (hand_back js t) (λ _ u. (ok true, u)) in
          let seen = work settle js t in if is_stopped t then unseen else seen)

    unfoldable pub settle_auto :
        (Job → State → Bool × State) → Job → State → Result Error (Unit {0}) × State
    unfolding finish give_back
    settle_auto handler j s =
        let (succeeded, t) = handler j s in if succeeded then finish j t else give_back j none t

    unfoldable pub settle_as : Job → Handled × State → Result Error (Unit {0}) × State
    unfolding finish give_back
    settle_as j (done, t) = finish j t
    settle_as j (release delay, t) = give_back j delay t
    settle_as j (leave, t) = (ok tt, t)

    unfoldable pub run_auto :
        (Job → State → Bool × State) → ℕ → ℕ → State → Option (Result Error (Unit {0})) × State
    unfolding try_once work settle_auto
    run_auto handler = Polling.run is_stopped pause try_once (work (settle_auto handler))

    unfoldable pub run_manual :
        (Job → State → Handled × State) → ℕ → ℕ → State → Option (Result Error (Unit {0})) × State
    unfolding try_once work settle_as
    run_manual handler =
        Polling.run is_stopped pause try_once (work (λ j s. settle_as j (handler j s)))
