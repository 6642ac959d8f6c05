-- ===== src/Storage/Update.antt =====
-- storage/memory.py: `InMemoryStorage.update_task`. Everything is computed on a working copy, and
-- the copy is stored when nothing has raised.
pub mod Guards
pub mod Integrity
pub mod Content
pub mod Accept
pub mod Log
use a2akit.Prelude.{ℕ, ◌+◌, String, not, Option, none, some, List, [], ◌∷◌, ◌++◌, eqb}
use a2akit.Dict
use a2akit.Dict.{Dict}
use a2akit.Wire.{
  TaskState, Message, ArtifactWrite, TaskStatus, MetaValue, text, flag, transitions,
  TransitionRecord, Task, is_terminal, meta_last_modified_key, state_transitions_key,
}
use a2akit.Errors.{
  Result, ok, err, task_not_found, task_terminal_state, concurrency, attribute_error, ◌>>=◌, ◌>>◌,
  raise_if,
}
use a2akit.Storage.{Storage, build_transition_record}
use a2akit.Storage.Artifacts.{apply_artifacts}

-- The keyword arguments of `update_task`.
pub record Update : Type 0 where
  pub state : Option TaskState
  pub status_message : Option Message
  pub artifacts : List ArtifactWrite
  pub messages : List Message
  pub task_metadata : Dict MetaValue
  pub expected_version : Option ℕ

abbrev pub no_update : Update
no_update = record {
  state = none;
  status_message = none;
  artifacts = [];
  messages = [];
  task_metadata = [];
  expected_version = none;
}

unfoldable pub get_task_or_raise : Storage → String → Result Task
get_task_or_raise st task_id = elim (Dict.get st.tasks task_id) [
  | none ↦ err task_not_found
  | some t ↦ ok t
]

abbrev pub version_of : Storage → String → ℕ
version_of st task_id = Dict.get_or st.versions task_id 1

unfoldable pub check_version : Option ℕ → ℕ → Result (Unit {0})
check_version none current = ok tt
check_version (some v) current = raise_if (not (eqb v current)) (concurrency (some current))

unfoldable pub check_terminal : Option TaskState → TaskState → Result (Unit {0})
check_terminal none current = ok tt
check_terminal (some s) current = raise_if (is_terminal current) task_terminal_state

-- md.setdefault("stateTransitions", []).append(r)
unfoldable pub append_transition : Dict MetaValue → TransitionRecord → Result (Dict MetaValue)
append_transition md r = elim (Dict.get md state_transitions_key) [
  | none ↦ ok (Dict.set md state_transitions_key (transitions (r ∷ [])))
  | some (text s) ↦ err attribute_error
  | some (flag b) ↦ err attribute_error
  | some (transitions rs) ↦ ok (Dict.set md state_transitions_key (transitions (rs ++ r ∷ [])))
]

abbrev pub stamped : Dict MetaValue → String → Dict MetaValue
stamped md now = Dict.set md meta_last_modified_key (text now)

-- The new status and metadata, by the cases on `state` and `status_message`.
unfoldable pub apply_status :
    TaskStatus
    → Dict MetaValue
    → Option TaskState
    → Option Message
    → String
    → Result (TaskStatus × Dict MetaValue)
unfolding append_transition
apply_status old md (some s) m now = do
  md' ← append_transition md (build_transition_record s now m)
  ok (record { state = s; timestamp = now; message = m }, stamped md' now)
apply_status old md none (some m) now =
    ok (record { state = old.state; timestamp = now; message = some m }, stamped md now)
apply_status old md none none now = ok (old, md)

unfoldable pub apply_update : Task → Update → String → Result Task
unfolding apply_status
apply_update t u now = do
  r ← apply_status t.status (Dict.update t.metadata u.task_metadata) u.state u.status_message now
  ok (record t {
    status = r.0;
    history = t.history ++ u.messages;
    artifacts = apply_artifacts t.artifacts u.artifacts;
    metadata = r.1;
  })

-- The working copy and the new version.
unfoldable pub updated : Storage → String → Update → String → Result (Task × ℕ)
unfolding get_task_or_raise
updated st task_id u now = do
  t ← get_task_or_raise st task_id
  check_version u.expected_version (version_of st task_id)
  check_terminal u.state t.status.state
  work ← apply_update t u now
  ok (work, version_of st task_id + 1)

unfoldable pub commit : Storage → String → Result (Task × ℕ) → Result ℕ × Storage
commit st task_id (err e) = (err e, st)
commit st task_id (ok (work, v)) = (
  ok v,
  record st { tasks = Dict.set st.tasks task_id work; versions = Dict.set st.versions task_id v },
)

unfoldable pub update_task : Storage → String → Update → String → Result ℕ × Storage
unfolding updated commit
update_task st task_id u now = commit st task_id (updated st task_id u now)

unfoldable pub get_version : Storage → String → Option ℕ
get_version st task_id = Dict.get st.versions task_id
