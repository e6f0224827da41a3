-- ===== src/Queue/Statements.antt =====
-- src/queue/statements.rs: the statements that a worker sends.
use tessaridb_sdk_rust.Common.{
  ℕ, ◌&&◌, Option, none, some, [], ◌++◌, Result, ok, err, bind as and_then, leb, if◌then◌else◌,
}
use tessaridb_sdk_rust.Common.Utf8.{Text, literal}
use tessaridb_sdk_rust.Query.Binder.{Binder, new as no_parameters}
use tessaridb_sdk_rust.Query.Decimal.{decimal}
use tessaridb_sdk_rust.Query.Fault.{BuildError, not_a_worker_name, not_a_count}
use tessaridb_sdk_rust.Query.Filter.{Filter, render}
use tessaridb_sdk_rust.Query.Names.{check_name}
use tessaridb_sdk_rust.Statement.{Duration, Rendered, tenancy_of, is_quotable, delay_tail}

abbrev pub most_claimed : ℕ
most_claimed = 500

pub record Statements : Type 0 where
  pub tenancy : Text
  pub queue : Text
  pub worker : Text

unfoldable pub new : Text → Text → Text → Text → Result BuildError Statements
new namespace database queue worker = and_then (check_name (literal "namespace") namespace) λ _.
    and_then (check_name (literal "database") database) λ _.
      and_then (check_name (literal "queue") queue) λ _.
        (if is_quotable worker
          then ok
              (record { tenancy = tenancy_of namespace database; queue = queue; worker = worker })
          else err (not_a_worker_name worker))

unfoldable pub narrowed_by : Option Filter → Binder → Result BuildError (Text × Binder)
narrowed_by none binder = ok ([], binder)
narrowed_by (some filter) binder =
    and_then (render filter binder) λ (rendered, later). ok (literal " WHERE " ++ rendered, later)

unfoldable pub claim_script : Statements → ℕ → Text → Text
claim_script s count narrowed =
    s.tenancy
    ++ (literal "USE CONSUMER '"
        ++ (s.worker
            ++ (literal "'; CLAIM "
                ++ (decimal count
                    ++ (literal " FROM " ++ (s.queue ++ (narrowed ++ literal ";")))))))

unfoldable pub claim : Statements → ℕ → Option Filter → Result BuildError Rendered
unfolding claim_script
claim s count filter =
    let rendered =
      and_then (narrowed_by filter no_parameters)
        λ (narrowed, binder). ok (claim_script s count narrowed, binder.parameters) in
    if leb 1 count && leb count most_claimed then rendered else err (not_a_count count)

unfoldable pub done : Statements → Text → Text
done s id = s.tenancy ++ (literal "DELETE " ++ (s.queue ++ (literal ":" ++ (id ++ literal ";"))))

unfoldable pub release : Statements → Text → Option Duration → Text
release s id after =
    s.tenancy
    ++ (literal "RELEASE "
        ++ (s.queue
            ++ (literal ":"
                ++ (id
                    ++ (literal " FOR CONSUMER '"
                        ++ (s.worker
                            ++ (literal "'"
                                ++ (delay_tail (literal " NOT BEFORE ") after ++ literal ";"))))))))
