-- ===== src/Sql/Create.antt =====
-- storage/_sql_base.py: `create_task`, with `_insert_idempotent` of storage/sqlite.py. The insertion
-- is one transaction; what other sessions commit between it and the SELECT that loads the task is an
-- argument.
pub mod Agrees
use a2akit.Prelude.{
  String, Bool, false, ◌&&◌, ◌==◌, Option, none, some, [], ◌∷◌, first, is_some, if◌then◌else◌,
}
use a2akit.Dict
use a2akit.Wire.{submitted, Message, Task}
use a2akit.Errors.{Result, ok, err, task_not_found, other_error}
use a2akit.Storage.{initial_metadata, mark_created}
use a2akit.Sql.{Row, Table, row_to_task}

-- The row that an INSERT gives. An empty key is no key.
unfoldable pub new_row : String → String → Message → Option String → String → Row
new_row task_id context_id m key now = record {
  id = task_id;
  context_id = context_id;
  status_state = submitted;
  status_timestamp = now;
  status_message = none;
  history = record m { task_id = some task_id; context_id = some context_id } ∷ [];
  artifacts = [];
  metadata_json = initial_metadata key now;
  version = 1;
  idempotency_key = key;
  created_at = now;
}

abbrev is_key : String → Option String → Bool
is_key key none = false
is_key key (some k) = k == key

-- WHERE context_id = :context_id AND idempotency_key = :idempotency_key
unfoldable pub has_row : String → String → Row → Bool
has_row context_id key r = (r.context_id == context_id) && is_key key r.idempotency_key

abbrev pub find_row : Table → String → String → Option Row
find_row table context_id key = first (has_row context_id key) (Dict.values table)

-- INSERT OR IGNORE: the unique index on the keys, and the primary key
unfoldable pub insert_or_ignore : Table → String → String → Row → Table
insert_or_ignore table context_id key r = elim (find_row table context_id key) [
  | some other ↦ table
  | none ↦ if is_some (Dict.get table r.id) then table else Dict.set table r.id r
]

-- Fetch back: the task of another row, if it is not our own.
abbrev pub other_task : String → Option Row → Option Task
other_task task_id none = none
other_task task_id (some r) = if r.id == task_id then none else some (row_to_task r)

-- load_task, and the transient marker
abbrev pub marked : Table → Option Row → Result Task × Table
marked table none = (err task_not_found, table)
marked table (some r) = (ok (mark_created (row_to_task r)), table)

abbrev pub loaded : (Table → Table) → String → Table → Result Task × Table
loaded between task_id table = marked (between table) (Dict.get (between table) task_id)

abbrev pub existing_or : (Table → Table) → String → Table → Option Task → Result Task × Table
existing_or between task_id table (some t) = (ok t, table)
existing_or between task_id table none = loaded between task_id table

abbrev pub create_keyed : (Table → Table) → Table → String → String → Row → Result Task × Table
create_keyed between table context_id key r =
    let after = insert_or_ignore table context_id key r in
    existing_or between r.id after (other_task r.id (find_row after context_id key))

-- INSERT; an identifier that is taken raises IntegrityError.
unfoldable pub create_plain : (Table → Table) → Table → Row → Result Task × Table
create_plain between table r =
    if is_some (Dict.get table r.id)
    then (err other_error, table)
    else loaded between r.id (Dict.set table r.id r)

unfoldable pub create_task :
    (Table → Table)
    → Table
    → String
    → Message
    → Option String
    → String
    → String
    → Result Task × Table
create_task between table context_id m none now fresh =
    create_plain between table (new_row fresh context_id m none now)
create_task between table context_id m (some key) now fresh =
    if key == ""
    then create_plain between table (new_row fresh context_id m none now)
    else create_keyed between table context_id key (new_row fresh context_id m (some key) now)
