-- ===== src/Examples/Queue.antt =====
-- src/queue.rs at concrete inputs: a session that only keeps a log.
use tessaridb_sdk_rust.Common.{◌≡◌, refl, Bool, true, false, List, [], ◌∷◌, ◌++◌, ok, none}
use tessaridb_sdk_rust.Common.Utf8.{Text, literal}
use tessaridb_sdk_rust.Client.Session.{Session}
use tessaridb_sdk_rust.Queue.Settling.{IsLogged, Settles, work-Settles}
use tessaridb_sdk_rust.Queue.Statements
use tessaridb_sdk_rust.Queue.Worker.{Job, Queue, work, settle_auto, finish, give_back, hand_back}
use tessaridb_sdk_rust.Statement.{tenancy_of}
use tessaridb_sdk_rust.Value.{Value}

abbrev logging : Session
logging = record { State = List Text; run_with = λ script given s. (ok [], s ++ script ∷ []) }

logging-IsLogged : IsLogged logging (λ s. s)
logging-IsLogged = record { logs = λ script given s. refl }

abbrev mail : Queue
mail = record {
  statements = record {
    tenancy = tenancy_of (literal "app") (literal "main");
    queue = literal "mail";
    worker = literal "w1";
  };
  batch = 10;
  narrowed = none;
}

abbrev letter : Text → Job
letter id = record { id = id; value = Value.null; attempts = 1 }

abbrev batch : List Job
batch = letter (literal "1") ∷ letter (literal "2") ∷ []

-- The signal comes with the first job.
abbrev is_stopped : List Text → Bool
is_stopped [] = false
is_stopped (t ∷ ts) = true

abbrev handler : Job → List Text → Bool × List Text
handler j s = (true, s)

abbrev scripts : List Text
scripts =
    Statements.done mail.statements (literal "1")
    ∷ Statements.release mail.statements (literal "2") none
    ∷ []

ends_so :
    work logging mail is_stopped
      (λ wait s. s)
      (settle_auto logging mail is_stopped (λ wait s. s) handler)
      batch
      []
    ≡ (ok true, scripts)
unfolding work settle_auto finish give_back hand_back
ends_so = refl

work-Settles_example :
    Settles logging
      (λ s. s)
      logging-IsLogged
      mail
      is_stopped
      (λ wait s. s)
      handler
      (λ j s. refl)
      batch
      []
      scripts
      true
work-Settles_example =
    work-Settles logging (λ s. s) logging-IsLogged mail is_stopped (λ wait s. s) handler
      (λ j s. refl) batch [] scripts true ends_so
