-- ===== src/Sql.antt =====
-- storage/_sql_base.py: `SQLStorageBase.update_task`, on a table of rows. A JSON column is held as
-- what it encodes: NULL and {} are the empty dictionary. Between the statements of one attempt, and
-- between two attempts, other sessions may commit; what they do is an argument. A statement is one
-- step of the database, and a transaction that raises writes nothing.
pub mod Merge
pub mod Create
pub mod Abstract
pub mod Refines
use a2akit.Prelude.{
  ℕ, zero, suc, ◌+◌, String, Bool, true, false, not, Option, none, some, List, [], ◌∷◌, ◌++◌, eqb,
  if◌then◌else◌, ◌||◌, is_some,
}
use a2akit.Dict
use a2akit.Dict.{Dict}
use a2akit.Wire.{TaskState, Message, Artifact, TaskStatus, MetaValue, Task, is_terminal}
use a2akit.Errors.{
  Result, ok, err, task_not_found, task_terminal_state, concurrency, runtime_error, ◌>>=◌, ◌>>◌,
  raise_if,
}
use a2akit.Storage.{build_transition_record}
use a2akit.Storage.Artifacts.{apply_artifacts}
use a2akit.Storage.Update.{Update, append_transition, stamped}

-- A row of `a2akit_tasks`, under its `id`.
pub record Row : Type 0 where
  pub id : String
  pub context_id : String
  pub status_state : TaskState
  pub status_timestamp : String
  pub status_message : Option Message
  pub history : List Message
  pub artifacts : List Artifact
  pub metadata_json : Dict MetaValue
  pub version : ℕ
  pub idempotency_key : Option String
  pub created_at : String

abbrev pub Table : Type 0
Table = Dict Row

-- `_row_to_task` of a whole row
unfoldable pub row_to_task : Row → Task
row_to_task r = record {
  id = r.id;
  context_id = r.context_id;
  status = record {
    state = r.status_state;
    timestamp = r.status_timestamp;
    message = r.status_message;
  };
  history = r.history;
  artifacts = r.artifacts;
  metadata = r.metadata_json;
}

-- The columns that an UPDATE sets; a column that is not among them keeps its value.
pub record Values : Type 0 where
  pub version : ℕ
  pub history : Option (List Message)
  pub artifacts : Option (List Artifact)
  pub metadata_json : Option (Dict MetaValue)
  pub status : Option TaskStatus

abbrev pub column {ℓ} : {A : Type ℓ} → Option A → A → A
column none old = old
column (some new) old = new

unfoldable pub write_values : Values → Row → Row
write_values v r =
    let s : TaskStatus = column v.status (record {
      state = r.status_state;
      timestamp = r.status_timestamp;
      message = r.status_message;
    }) in
    record r {
      status_state = s.state;
      status_timestamp = s.timestamp;
      status_message = s.message;
      history = column v.history r.history;
      artifacts = column v.artifacts r.artifacts;
      metadata_json = column v.metadata_json r.metadata_json;
      version = v.version;
    }

-- The columns that depend on `state` and `status_message`; `md` is the merged metadata if there is
-- any, and `old` the row's.
unfoldable pub status_values :
    Row
    → Option (Dict MetaValue)
    → Option TaskState
    → Option Message
    → String
    → Result (Option (Dict MetaValue) × Option TaskStatus)
status_values r md (some s) m now = do
  log ← append_transition (column md r.metadata_json) (build_transition_record s now m)
  ok (some (stamped log now), some (record { state = s; timestamp = now; message = m }))
status_values r md none (some m) now = ok (
  some (stamped (column md r.metadata_json) now),
  some (record { state = r.status_state; timestamp = now; message = some m }),
)
status_values r md none none now = ok (md, none)

abbrev pub if_any {ℓ κ} : {A : Type ℓ} {B : Type κ} → List A → B → Option B
if_any [] b = none
if_any (x ∷ xs) b = some b

abbrev pub all_values : Row → Update → Option (Dict MetaValue) × Option TaskStatus → Values
all_values r u sv = record {
  version = r.version + 1;
  history = if_any u.messages (r.history ++ u.messages);
  artifacts = if_any u.artifacts (apply_artifacts r.artifacts u.artifacts);
  metadata_json = sv.0;
  status = sv.1;
}

-- `if task_metadata:` the metadata with the argument merged in
abbrev pub merged_metadata : Row → Update → Option (Dict MetaValue)
merged_metadata r u = if_any u.task_metadata (Dict.update r.metadata_json u.task_metadata)

-- The merge in Python of the arguments with the row that was selected.
unfoldable pub merged_values : Row → Update → String → Result Values
merged_values r u now = do
  sv ← status_values r (merged_metadata r u) u.state u.status_message now
  ok (all_values r u sv)

-- UPDATE ... WHERE id = task_id AND version = version: whether a row was hit.
unfoldable pub update_where : Table → String → ℕ → Values → Bool × Table
update_where table task_id version v = elim (Dict.get table task_id) [
  | none ↦ (false, table)
  | some r ↦
      if eqb r.version version
      then (true, Dict.set table task_id (write_values v r))
      else (false, table)
]

unfoldable pub check_expected : Option ℕ → ℕ → Result (Unit {0})
check_expected none current = ok tt
check_expected (some v) current = raise_if (not (eqb current v)) (concurrency (some current))

unfoldable pub check_state : Option TaskState → TaskState → Result (Unit {0})
check_state none current = ok tt
check_state (some s) current = raise_if (is_terminal current) task_terminal_state

-- SELECT and merge: the row and the columns to set.
unfoldable pub prepared : Option Row → Update → String → Result (Row × Values)
prepared none u now = err task_not_found
prepared (some r) u now = do
  check_expected u.expected_version r.version
  check_state u.state r.status_state
  v ← merged_values r u now
  ok (r, v)

-- What other sessions commit before an attempt and inside it, and the clock.
pub record Gap : Type 0 where
  pub before : Table → Table
  pub inside : Table → Table
  pub now : String

-- One attempt: an exception or the columns' version, and whether the UPDATE hit its row.
unfoldable pub finish_attempt :
    Gap → String → Table → Result (Row × Values) → Result (ℕ × Bool) × Table
finish_attempt g task_id table (err e) = (err e, table)
finish_attempt g task_id table (ok (r, v)) =
    let (hit, after) = update_where (g.inside table) task_id r.version v in
    (ok (v.version, hit), after)

unfoldable pub attempt : Gap → Table → String → Update → Result (ℕ × Bool) × Table
attempt g table task_id u =
    finish_attempt g task_id (g.before table) (prepared (Dict.get (g.before table) task_id) u g.now)

-- After an attempt: the exception, the new version, or, where no row was hit, the next attempt, but
-- a conflict after the last one and for a caller that named the version.
unfoldable pub after_attempt :
    Bool → Result ℕ × Table → Result (ℕ × Bool) × Table → Result ℕ × Table
after_attempt last rest (err e, table) = (err e, table)
after_attempt last rest (ok (v, true), table) = (ok v, table)
after_attempt last rest (ok (v, false), table) =
    if last then (err (concurrency none), table) else rest

-- `for attempt in range(max_attempts)`: the fuel is the attempts that are left.
unfoldable pub attempts : ℕ → (ℕ → Gap) → Table → String → Update → Result ℕ × Table
attempts zero gap table task_id u = (err runtime_error, table)
attempts (suc n) gap table task_id u =
    let tried = attempt (gap n) table task_id u in
    let rest = attempts n gap tried.1 task_id u in
    after_attempt (is_some u.expected_version || eqb n 0) rest tried

unfoldable pub update_task : (ℕ → Gap) → Table → String → Update → Result ℕ × Table
update_task gap table task_id u =
    attempts (if is_some u.expected_version then 1 else 8) gap table task_id u
