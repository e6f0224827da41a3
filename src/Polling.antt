-- ===== src/Polling.antt =====
-- The loops that src/queue.rs and src/consumer.rs each have: `next_batch`, which asks until there is
-- something, and the loop of `run_auto` and `run_manual` around it. What is around a handle (its
-- connection, the clock, the stop signal, the work of its handler) is one state.
pub mod Ending
pub mod Waiting
use tessaridb_sdk_rust.Common.{
  ℕ, zero, suc, ◌*◌, min, Bool, true, false, Option, none, some, List, [], ◌∷◌, Result, ok, err,
  if◌then◌else◌,
}
use tessaridb_sdk_rust.Error.{Error}

-- Milliseconds.
abbrev pub first_wait : ℕ
first_wait = 50

abbrev pub longest_wait : ℕ
longest_wait = 1000

unfoldable pub longer : ℕ → ℕ
longer wait = min (wait * 2) longest_wait

-- What one request for a batch came to.
pub data Tried (A : Type 0) : Type 0 where
  got : List A → Tried A
  again : Tried A
  failed : Error → Tried A

-- `pause` is the `select!` of the stop signal and a sleep of so many milliseconds.
module _ {State A : Type 0} (is_stopped : State → Bool) (pause : ℕ → State → State)
    (try_once : State → Tried A × State) where
  unfoldable pub polled :
      (State → Option (Result Error (Option (List A))) × State)
      → Tried A × State
      → Option (Result Error (Option (List A))) × State
  polled go_on (got items, s) = (some (ok (some items)), s)
  polled go_on (failed e, s) = (some (err e), s)
  polled go_on (again, s) = go_on s

  -- The loop of `next_batch`; `none` where the rounds are used up.
  unfoldable pub poll : ℕ → ℕ → State → Option (Result Error (Option (List A))) × State
  unfolding polled longer
  poll zero wait s = (none, s)
  poll (suc rounds) wait s =
      let go_on = λ (t : State). poll rounds (longer wait) (pause wait t) in
      let asked = polled go_on (try_once s) in if is_stopped s then (some (ok none), s) else asked

  -- `work` deals with a batch, and says whether the handle was stopped in it.
  module _ (work : List A → State → Result Error Bool × State) where
    unfoldable pub worked :
        (State → Option (Result Error (Unit {0})) × State)
        → Result Error Bool × State
        → Option (Result Error (Unit {0})) × State
    worked go_on (err e, s) = (some (err e), s)
    worked go_on (ok true, s) = (some (ok tt), s)
    worked go_on (ok false, s) = go_on s

    unfoldable pub with_batch :
        (State → Option (Result Error (Unit {0})) × State)
        → Option (Result Error (Option (List A))) × State
        → Option (Result Error (Unit {0})) × State
    unfolding worked
    with_batch go_on (none, s) = (none, s)
    with_batch go_on (some (err e), s) = (some (err e), s)
    with_batch go_on (some (ok none), s) = (some (ok tt), s)
    with_batch go_on (some (ok (some items)), s) = worked go_on (work items s)

    -- `while let Some(items) = self.next_batch().await? { … }`, for so many batches of at most so
    -- many rounds.
    unfoldable pub run : ℕ → ℕ → State → Option (Result Error (Unit {0})) × State
    unfolding with_batch
    run zero rounds s = (none, s)
    run (suc batches) rounds s = with_batch (λ t. run batches rounds t) (poll rounds first_wait s)
