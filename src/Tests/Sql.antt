-- ===== src/Tests/Sql.antt =====
-- The theorem on the SQL storage, on a table where another session writes in between.
use a2akit.Prelude.{
  ℕ, Bool, true, false, eqb, ◌≡◌, refl, some, none, [], ◌∷◌, if◌then◌else◌, is_some,
}
use a2akit.Dict
use a2akit.Wire.{submitted}
use a2akit.Errors.{ok}
use a2akit.Storage.Update.{append_transition}
use a2akit.Storage.{build_transition_record}
use a2akit.Sql.{
  Row, Table, Values, Gap, update_where, write_values, update_task, attempts, after_attempt,
  attempt, finish_attempt, prepared, merged_values, status_values, check_expected, check_state,
}
use a2akit.Storage
use a2akit.Storage.{has_key}
use a2akit.Sql.{row_to_task}
use a2akit.Sql.Create.{create_task, has_row}
use a2akit.Sql.Create.Agrees.{Agrees, Keyed, create_task-Agrees}
use a2akit.Sql.Abstract.{abstract, Versioned, update_where-Versioned}
use a2akit.Sql.Refines.{Linearized, acts, update_task_refines}
use a2akit.Tests.Data.{question, started_log, to_working}

abbrev row : Row
row = record {
  id = "t1";
  context_id = "c1";
  status_state = submitted;
  status_timestamp = "09:00";
  status_message = none;
  history = question ∷ [];
  artifacts = [];
  metadata_json = started_log;
  version = 3;
  idempotency_key = none;
  created_at = "09:00";
}

abbrev table : Table
table = ("t1", row) ∷ []

-- The other session adds a message between the SELECT and the UPDATE of the first attempt.
abbrev rival_values : Values
rival_values = record {
  version = 4;
  history = some (question ∷ (question ∷ []));
  artifacts = none;
  metadata_json = none;
  status = none;
}

abbrev gap_of : Bool → Gap
gap_of true = record {
  before = λ t. t;
  inside = λ t. (update_where t "t1" 3 rival_values).1;
  now = "09:05";
}
gap_of false = record { before = λ t. t; inside = λ t. t; now = "09:06" }

-- The first of eight attempts has seven after it.
abbrev gaps : ℕ → Gap
gaps n = gap_of (eqb n 7)

gap_of-Versioned : (b : Bool) → Versioned "t1" (gap_of b).inside
gap_of-Versioned true = update_where-Versioned "t1" 3 rival_values refl
gap_of-Versioned false = λ t r r' found after same. cc

gaps-Versioned : (n : ℕ) → Versioned "t1" (gaps n).inside
gaps-Versioned n = gap_of-Versioned (eqb n 7)

second_attempt : (update_task gaps table "t1" (to_working none)).0 ≡ ok 5
unfolding update_task attempts after_attempt attempt finish_attempt prepared merged_values
    status_values check_expected check_state update_where write_values append_transition
    build_transition_record Dict.get Dict.set
second_attempt = refl

update_task_refines_example :
    (missed : ℕ) × Linearized "t1"
      (to_working none)
      5
      (acts "t1"
        (to_working none)
        gaps
        (if is_some (to_working none).expected_version then 1 else 8)
        missed
        table)
      (update_task gaps table "t1" (to_working none)).1
update_task_refines_example =
    update_task_refines gaps table "t1" (to_working none) 5 gaps-Versioned second_attempt

table-Keyed : Keyed "c1" "m9" "u1" table
unfolding has_key has_row Dict.get row_to_task
table-Keyed = (refl, refl, refl, tt)

create_task-Agrees_example :
    Agrees
      (Storage.create_task (abstract table) "c1" question (some "m9") "09:07" "u1")
      (create_task (λ t. t) table "c1" question (some "m9") "09:07" "u1")
create_task-Agrees_example =
    create_task-Agrees table "c1" question (some "m9") "09:07" "u1" table-Keyed
