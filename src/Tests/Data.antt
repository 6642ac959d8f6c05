-- ===== src/Tests/Data.antt =====
-- Concrete data for the tests: a message, a task and a storage that holds it.
use a2akit.Prelude.{ℕ, Option, none, some, [], ◌∷◌}
use a2akit.Dict.{Dict}
use a2akit.Wire.{
  TaskState, submitted, working, role_user, Part, Message, Artifact, Task, MetaValue, transitions,
  state_transitions_key,
}
use a2akit.Storage.{Storage}
use a2akit.Storage.Update.{Update, no_update}

abbrev pub hello : Part
hello = record {
  text = some "hello";
  raw = none;
  url = none;
  value = none;
  media_type = none;
  filename = none;
}

abbrev pub question : Message
question = record {
  role = role_user;
  parts = hello ∷ [];
  message_id = "m1";
  task_id = some "t1";
  context_id = some "c1";
}

abbrev pub started_log : Dict MetaValue
started_log =
    (
      state_transitions_key,
      transitions (record { state = submitted; timestamp = "09:00"; message_text = none } ∷ []),
    )
    ∷ []

abbrev pub task_in : TaskState → Task
task_in s = record {
  id = "t1";
  context_id = "c1";
  status = record { state = s; timestamp = "09:00"; message = none };
  history = question ∷ [];
  artifacts = [];
  metadata = started_log;
}

abbrev pub storage_in : TaskState → Storage
storage_in s = record { tasks = ("t1", task_in s) ∷ []; contexts = []; versions = ("t1", 3) ∷ [] }

abbrev pub to_working : Option ℕ → Update
to_working v = record no_update { state = some working; expected_version = v }

abbrev pub note : Artifact
note = record { artifact_id = "a1"; name = "note"; parts = hello ∷ [] }
