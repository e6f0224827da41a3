-- ===== src/Queue/Settling.antt =====
-- src/queue.rs, the loop over the jobs of a batch: what is sent for each job.
use tessaridb_sdk_rust.Common.{
  ℕ, ◌≡◌, refl, ◌∙◌, sym, ap, inl, inr, Bool, true, false, none, List, [], ◌∷◌, ◌++◌, Result, ok,
  err, Bool-cases, append_assoc, append-nil, if◌then◌else◌,
}
use tessaridb_sdk_rust.Common.Utf8.{Text, literal}
use tessaridb_sdk_rust.Client.Session.{Session}
use tessaridb_sdk_rust.Error.{Error}
use tessaridb_sdk_rust.Queue.Statements
use tessaridb_sdk_rust.Queue.Worker.{Job, Queue, finish, give_back, hand_back, work, settle_auto}
use tessaridb_sdk_rust.Statement.{delay_tail}
use tessaridb_sdk_rust.Value.{Value}
use tessaridb_sdk_rust.Wire.Stream.{after, after-ok}

-- A log of the scripts that a session was asked to run.
pub record IsLogged (session : Session) (log : session.State → List Text) : Type 0 where
  pub logs :
      (script : Text) (given : List (Text × Value)) (s : session.State)
      → log (session.run_with script given s).1 ≡ log s ++ script ∷ []

same_state :
    {A S : Type 0} (m : Result Error A × S) (t : S)
    → after {B = Unit {0}} m (λ _ u. (ok tt, u)) ≡ (ok tt, t)
    → m.1 ≡ t
same_state (ok a, s) t e = ap (λ p. p.1) e
same_state (err f, s) t e = absurd cc

module _ (session : Session) (log : session.State → List Text) (law : IsLogged session log)
    (q : Queue) where
  open session use {State, run_with}

  -- The statement that deletes a job as done, and the one that gives it back for anybody to claim.
  unfoldable pub deletes : Job → Text
  deletes j =
      q.statements.tenancy
      ++ (literal "DELETE " ++ (q.statements.queue ++ (literal ":" ++ (j.id ++ literal ";"))))

  unfoldable pub gives_back : Job → Text
  gives_back j =
      q.statements.tenancy
      ++ (literal "RELEASE "
          ++ (q.statements.queue
              ++ (literal ":"
                  ++ (j.id
                      ++ (literal " FOR CONSUMER '" ++ (q.statements.worker ++ literal "';"))))))

  unfoldable pub all_back : List Job → List Text
  all_back [] = []
  all_back (j ∷ js) = gives_back j ∷ all_back js

  -- What settles a job whose handler succeeded, and one whose handler failed.
  unfoldable pub settling : Bool → Job → Text
  settling true j = deletes j
  settling false j = gives_back j

  -- Both scripts are a run whose answers are not looked at.
  ran : (script : Text) (s t : State) → (run_with script [] s).1 ≡ t → log t ≡ log s ++ script ∷ []
  ran script s t e = rw (ap log (sym e)) (law.logs script [] s)

  -- One more script in front.
  grows :
      (script : Text) (scripts : List Text) (s u t : State)
      → log u ≡ log s ++ script ∷ []
      → log t ≡ log u ++ scripts
      → log t ≡ log s ++ script ∷ scripts
  grows script scripts s u t h k =
      k ∙ (ap (λ l. l ++ scripts) h ∙ append_assoc (log s) (script ∷ []) scripts)

  given_back :
      (j : Job) (s t : State)
      → give_back session q j none s ≡ (ok tt, t)
      → (run_with (gives_back j) [] s).1 ≡ t
  unfolding give_back gives_back Statements.release delay_tail
  given_back j s t e = same_state (run_with (gives_back j) [] s) t e

  all_given_back :
      (js : List Job) (s t : State)
      → hand_back session q js s ≡ (ok tt, t)
      → log t ≡ log s ++ all_back js
  unfolding hand_back all_back
  all_given_back [] s t e = rw (ap (λ p. log p.1) (sym e)) (sym (append-nil (log s)))
  all_given_back (j ∷ js) s t e =
      let (u0, u, first, rest) = after-ok (give_back session q j none s) _ tt t e in
      grows (gives_back j) (all_back js) s u t (ran (gives_back j) s u (given_back j s u first))
        (all_given_back js u t rest)

  module _ (is_stopped : State → Bool) (pause : ℕ → State → State)
      (handler : Job → State → Bool × State)
      (handler_sends_nothing : (j : Job) (s : State) → log (handler j s).1 ≡ log s) where
    -- A batch worked on from a state: the scripts, one for each job, and whether the handle was stopped
    -- in it. A job is settled as its handler says, in the state that the jobs before it led to; where the
    -- handle is stopped then, the jobs behind it are given back.
    pub data Worked : List Job → State → List Text → Bool → Type 0 where
      nothing : (s : State) → Worked [] s [] false
      went_on :
          (j : Job) (js : List Job) (s v u : State) (succeeded b : Bool) (scripts : List Text)
          → handler j s ≡ (succeeded, v)
          → (run_with (settling succeeded j) [] v).1 ≡ u
          → is_stopped u ≡ false
          → Worked js u scripts b
          → Worked (j ∷ js) s (settling succeeded j ∷ scripts) b
      stopped :
          (j : Job) (js : List Job) (s v u : State) (succeeded : Bool)
          → handler j s ≡ (succeeded, v)
          → (run_with (settling succeeded j) [] v).1 ≡ u
          → is_stopped u ≡ true
          → Worked (j ∷ js) s (settling succeeded j ∷ all_back js) true

    -- The log grew by these scripts.
    abbrev pub Settles : List Job → State → State → Bool → Type 0
    Settles js s t b = (scripts : List Text) × Worked js s scripts b × (log t ≡ log s ++ scripts)

    settled_so :
        (j : Job) (v u : State) (succeeded : Bool)
        → (if succeeded then finish session q j v else give_back session q j none v) ≡ (ok tt, u)
        → (run_with (settling succeeded j) [] v).1 ≡ u
    unfolding settling finish deletes Statements.done
    settled_so j v u true e = same_state (run_with (deletes j) [] v) u e
    settled_so j v u false e = given_back j v u e

    -- One job after its handler, which left the log as it was.
    one_more :
        (j : Job) (s v u : State) (succeeded : Bool)
        → log v ≡ log s
        → (run_with (settling succeeded j) [] v).1 ≡ u
        → log u ≡ log s ++ settling succeeded j ∷ []
    one_more j s v u succeeded kept e =
        ran (settling succeeded j) v u e ∙ ap (λ l. l ++ settling succeeded j ∷ []) kept

    rest-Settles :
        (j : Job) (js : List Job) (s v u t : State) (succeeded b : Bool)
        → handler j s ≡ (succeeded, v)
        → (run_with (settling succeeded j) [] v).1 ≡ u
        → log v ≡ log s
        → (work session q is_stopped pause (settle_auto session q is_stopped pause handler) js u
              ≡ (ok b, t)
            → Settles js u t b)
        → (if is_stopped u
            then after (hand_back session q js u) (λ _ v. (ok true, v))
            else work session q is_stopped pause
                (settle_auto session q is_stopped pause handler)
                js
                u)
          ≡ (ok b, t)
        → Settles (j ∷ js) s t b
    rest-Settles j js s v u t succeeded b said ran_it kept later e =
        elim (Bool-cases (is_stopped u)) [
          | inl i ↦
              (let (u0, w, first, same) = after-ok (hand_back session q js u) _ b t (rw i at e) in
                let is_true : true ≡ b = cc in
                (
                  settling succeeded j ∷ all_back js,
                  rw (← is_true) (stopped j js s v u succeeded said ran_it i),
                  grows (settling succeeded j) (all_back js) s u t
                      (one_more j s v u succeeded kept ran_it)
                      (rw (ap (λ p. log p.1) (sym same)) (all_given_back js u w first)),
                ))
          | inr i ↦
              (let (scripts, settled, logged) = later (rw i at e) in
                (
                  settling succeeded j ∷ scripts,
                  went_on j js s v u succeeded b scripts said ran_it i settled,
                  grows (settling succeeded j) scripts s u t
                      (one_more j s v u succeeded kept ran_it) logged,
                ))
        ]

    -- A batch that was worked on without a failure, with a handler that sends nothing on this session
    -- itself: for each of its jobs one script was sent, in the order of the jobs. A job whose handler
    -- succeeded is deleted, one whose handler failed is given back, and once the handle is stopped the
    -- jobs that were not looked at are given back. No other script was sent.
    pub work-Settles :
        (js : List Job) (s t : State) (b : Bool)
        → work session q is_stopped pause (settle_auto session q is_stopped pause handler) js s
          ≡ (ok b, t)
        → Settles js s t b
    unfolding work settle_auto
    work-Settles [] s t b e =
        let is_false : false ≡ b = cc in
        ([], rw (← is_false) (nothing s), rw (ap (λ p. log p.1) (sym e)) (sym (append-nil (log s))))
    work-Settles (j ∷ js) s t b e =
        let (u0, u, first, rest) =
          after-ok (settle_auto session q is_stopped pause handler j s) _ b t e in
        rest-Settles j js s (handler j s).1 u t (handler j s).0 b refl
          (settled_so j (handler j s).1 u (handler j s).0 first) (handler_sends_nothing j s)
          (work-Settles js u t b) rest
