-- ===== src/Storage/Delete.antt =====
-- `delete_task` and `delete_context`, with the cascade into the configuration store that is bound
-- (storage/base.py); the cascade's failures are swallowed, and the in-memory store has none.
pub mod Laws
use a2akit.Prelude.{
  ℕ, String, Bool, true, false, Option, none, some, List, [], ◌∷◌, ◌==◌, length, if◌then◌else◌,
}
use a2akit.Dict
use a2akit.Dict.{Dict}
use a2akit.Wire.{Task}
use a2akit.Push.Store.{PushStore, delete_configs_for_task}
use a2akit.Storage.{Storage}

unfoldable pub cascade_for_task : Option PushStore → String → Option PushStore
cascade_for_task none task_id = none
cascade_for_task (some store) task_id = some (delete_configs_for_task store task_id).1

unfoldable pub cascade_for_tasks : Option PushStore → List String → Option PushStore
unfolding cascade_for_task
cascade_for_tasks push [] = push
cascade_for_tasks push (k ∷ ks) = cascade_for_tasks (cascade_for_task push k) ks

abbrev remove_task : Storage → String → Storage
remove_task st k = record st { tasks = Dict.pop st.tasks k; versions = Dict.pop st.versions k }

unfoldable pub delete_task : Storage → Option PushStore → String → Bool × Storage × Option PushStore
delete_task st push k = elim (Dict.get st.tasks k) [
  | none ↦ (false, remove_task st k, push)
  | some t ↦ (true, remove_task st k, cascade_for_task push k)
]

unfoldable pub ids_in_context : Dict Task → String → List String
ids_in_context [] context_id = []
ids_in_context ((k, t) ∷ d) context_id =
    let rest = ids_in_context d context_id in if t.context_id == context_id then k ∷ rest else rest

unfoldable pub remove_tasks : Storage → List String → Storage
remove_tasks st [] = st
remove_tasks st (k ∷ ks) = remove_tasks (remove_task st k) ks

unfoldable pub delete_context : Storage → Option PushStore → String → ℕ × Storage × Option PushStore
delete_context st push context_id =
    let to_delete = ids_in_context st.tasks context_id in
    let left = remove_tasks st to_delete in
    (
      length to_delete,
      record left { contexts = Dict.pop left.contexts context_id },
      cascade_for_tasks push to_delete,
    )
