-- ===== src/Storage.antt =====
-- storage/memory.py: `InMemoryStorage`. A method returns its result and the storage after it; the
-- clock (`now`, an ISO text) and the fresh uuid are arguments. A deep copy is the value itself.
-- `_coerce_v10_*` pass v10 objects through, and the model has no others. Cascading deletes of push
-- configurations are in Push/Store.antt.
pub mod Artifacts
pub mod Update
pub mod Listing
pub mod Create
pub mod Delete
pub mod History
use a2akit.Prelude.{
  ℕ, suc, zero, ◌-◌, String, Bool, true, false, ◌&&◌, Option, none, some, List, [], ◌∷◌, length,
  drop, first, ◌==◌, if◌then◌else◌, ℤ, pos, negsuc,
}
use a2akit.Dict
use a2akit.Dict.{Dict}
use a2akit.Wire.{
  TaskState, submitted, Message, Part, TransitionRecord, MetaValue, text, flag, transitions, Task,
  meta_created_at_key, meta_last_modified_key, just_created_key, idempotency_key,
  state_transitions_key,
}
use a2akit.Errors.{◌>>=◌, ◌>>◌}

pub record Storage : Type 0 where
  pub tasks : Dict Task
  pub contexts : Dict String
  pub versions : Dict ℕ

unfoldable pub init : Storage
init = record { tasks = []; contexts = []; versions = [] }

-- history[-n:], also for a negative n
unfoldable pub trim_history : List Message → Option ℤ → List Message
trim_history history none = history
trim_history history (some (pos zero)) = []
trim_history history (some (pos (suc n))) = drop (length history - suc n) history
trim_history history (some (negsuc n)) = drop (suc n) history

abbrev pub view : Option ℤ → Bool → Task → Task
view history_length include_artifacts t = record t {
  history = trim_history t.history history_length;
  artifacts = if include_artifacts then t.artifacts else [];
}

unfoldable pub load_task : Storage → String → Option ℤ → Bool → Option Task
load_task st task_id history_length include_artifacts = elim (Dict.get st.tasks task_id) [
  | none ↦ none
  | some t ↦ some (view history_length include_artifacts t)
]

-- The first part with a text that is not empty gives `messageText`.
first_text : List Part → Option String
first_text [] = none
first_text (p ∷ ps) =
    let rest = first_text ps in
    elim p.text [ none ↦ rest | some s ↦ if s == "" then rest else some s ]

unfoldable pub build_transition_record : TaskState → String → Option Message → TransitionRecord
unfolding first_text
build_transition_record state timestamp none = record {
  state = state;
  timestamp = timestamp;
  message_text = none;
}
build_transition_record state timestamp (some m) = record {
  state = state;
  timestamp = timestamp;
  message_text = first_text m.parts;
}

-- (t.metadata or {}).get("_idempotency_key") == key
abbrev pub is_text : Option MetaValue → String → Bool
is_text (some (text s)) k = s == k
is_text _ k = false

unfoldable pub has_key : String → String → Task → Bool
has_key context_id key t =
    (t.context_id == context_id) && is_text (Dict.get t.metadata idempotency_key) key

-- `if idempotency_key:` is false of None and of the empty text.
unfoldable pub find_idempotent : Dict Task → String → Option String → Option Task
unfolding has_key
find_idempotent tasks context_id none = none
find_idempotent tasks context_id (some key) =
    if key == "" then none else first (has_key context_id key) (Dict.values tasks)

abbrev pub keyed : Option String → Dict MetaValue
keyed none = []
keyed (some k) = if k == "" then [] else Dict.set [] idempotency_key (text k)

abbrev pub initial_metadata : Option String → String → Dict MetaValue
initial_metadata key now =
    Dict.set
      (Dict.set
        (Dict.set (keyed key) state_transitions_key
          (transitions (build_transition_record submitted now none ∷ [])))
        meta_created_at_key (text now))
      meta_last_modified_key (text now)

unfoldable pub new_task : String → String → Message → Option String → String → Task
new_task task_id context_id m key now = record {
  id = task_id;
  context_id = context_id;
  status = record { state = submitted; timestamp = now; message = none };
  history = record m { task_id = some task_id; context_id = some context_id } ∷ [];
  artifacts = [];
  metadata = initial_metadata key now;
}

abbrev pub insert_task : Storage → Task → Storage
insert_task st t = record st {
  tasks = Dict.set st.tasks t.id t;
  versions = Dict.set st.versions t.id 1;
}

-- the returned copy carries the transient marker, the stored task does not
abbrev pub mark_created : Task → Task
mark_created t = record t { metadata = Dict.set t.metadata just_created_key (flag true) }

unfoldable pub create_task :
    Storage → String → Message → Option String → String → String → Task × Storage
create_task st context_id m key now fresh = elim (find_idempotent st.tasks context_id key) [
  | some t ↦ (t, st)
  | none ↦ let t = new_task fresh context_id m key now in (mark_created t, insert_task st t)
]
