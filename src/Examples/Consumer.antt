-- ===== src/Examples/Consumer.antt =====
-- src/consumer.rs, and its loop, at concrete inputs.
use tessaridb_sdk_rust.Common.{
  ℕ, ◌-◌, ◌≡◌, refl, ◌==◌, Bool, true, false, none, some, Option, List, [], ◌∷◌, pos, Result, ok,
  arith,
}
use tessaridb_sdk_rust.Common.Utf8.{Text, literal}
use tessaridb_sdk_rust.Client.Follow.{get, last}
use tessaridb_sdk_rust.Client.Session.{Session}
use tessaridb_sdk_rust.Consumer.Run.{
  Consumer, Message, run_auto, try_once, work, settle_auto, settle, settled, acknowledge, ignored,
  handed_out, messages, message, held_or_none, tried,
}
use tessaridb_sdk_rust.Consumer.Settling.{run_auto-is_stopped}
use tessaridb_sdk_rust.Consumer.Statements
use tessaridb_sdk_rust.Consumer.Statements.{ack}
use tessaridb_sdk_rust.Error.{Error}
use tessaridb_sdk_rust.Polling.{
  Tried, again, poll, polled, longer, run, with_batch, worked, first_wait,
}
use tessaridb_sdk_rust.Polling.Waiting.{Ends, StopsWithin, poll_first-Ends}
use tessaridb_sdk_rust.Refusal.Class.{text_eq}
use tessaridb_sdk_rust.Statement.{Duration, tenancy_of, whole}
use tessaridb_sdk_rust.Value.{Value, Number, of_entries, entries}
use tessaridb_sdk_rust.Wire.Answer.{Answer}

abbrev statements : Statements.Statements
statements = record {
  tenancy = tenancy_of (literal "app") (literal "main");
  topic = literal "orders";
  group = literal "billing";
}

abbrev later : Duration
later = record { secs = 2; subsec_nanos = 500_000_000 }

-- A countdown to the signal: nothing is found before it.
abbrev is_over : ℕ → Bool
is_over n = n == 0

abbrev tick : ℕ → ℕ → ℕ
tick wait n = n - 1

abbrev find_nothing : ℕ → Tried ℕ × ℕ
find_nothing n = (again, n)

countdown : StopsWithin is_over tick find_nothing (λ n. n)
countdown = record {
  stops = λ s h. rw h refl;
  pause_spends = λ wait s. omega arith;
  try_keeps = λ s. omega arith;
}

poll_first-Ends_example :
    Ends is_over tick find_nothing 0 3 (poll is_over tick find_nothing 5 first_wait 3)
poll_first-Ends_example =
    poll_first-Ends is_over tick find_nothing (λ n. n) countdown 5 3 (omega arith)

-- A read answers one message, and settling it gives the signal.
abbrev one_message : Answer
one_message = Answer.found (record {
  records =
      (
        literal "m",
        Value.object (
            of_entries (
              (literal "deliveries", Value.number (Number.integer (pos 1)))
              ∷ (literal "position", Value.number (Number.integer (pos 7)))
              ∷ [])),
      )
      ∷ [];
  path = [];
  names = [];
  notes = [];
  only = false;
  exact = none;
  suggestion = none;
})

abbrev answer_for : List (Text × Value) → Bool → Result Error (List Answer) × Bool
answer_for [] s = (ok (one_message ∷ []), s)
answer_for (g ∷ gs) s = (ok (Answer.value (Value.number (Number.integer (pos 1))) [] ∷ []), true)

abbrev short_session : Session
short_session = record { State = Bool; run_with = λ script given s. answer_for given s }

abbrev billing : Consumer
billing = record { statements = statements; batch = 10 }

abbrev handler : Message → Bool → Bool × Bool
handler m s = (true, s)

abbrev is_told : Bool → Bool
is_told s = s

abbrev consuming : Option (Result Error (Unit {0})) × Bool
consuming = run_auto short_session billing is_told (λ wait s. s) handler 2 2 false

consuming_ends : consuming ≡ (some (ok tt), true)
unfolding run_auto run poll polled longer with_batch worked try_once work settle_auto settle settled
    acknowledge ignored handed_out messages message held_or_none tried whole get last entries
    of_entries text_eq Statements.ack Statements.settle Statements.settle_from
    Statements.position_value Statements.separator
consuming_ends = refl

run_auto-is_stopped_example : is_told true ≡ true
run_auto-is_stopped_example =
    run_auto-is_stopped short_session billing is_told (λ wait s. s) handler 2 2 false true
      consuming_ends
