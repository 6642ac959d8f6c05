-- ===== src/Manager/Cancellation.antt =====
-- `cancel_task` and `_force_cancel_after`, with the cancel registry of broker/memory.py.
use a2akit.Prelude.{String, Bool, true, false, Option, none, some, [], if◌then◌else◌}
use a2akit.Dict
use a2akit.Wire.{Task, is_terminal}
use a2akit.Errors.{task_not_found, task_not_cancelable, ok}
use a2akit.Cancel.{cancel_task_in_storage}
use a2akit.EventBus
use a2akit.Runtime.{Act, force_cancel_after, ◌>>=◌, ◌>>◌, pure, raise, try_except, load, spawn}

-- InMemoryCancelRegistry: an event for each task, true once it is set.
unfoldable pub request_cancel : String → Act (Unit {0})
request_cancel task_id w =
    (ok tt, record w { cancel_events = Dict.set w.cancel_events task_id true })

abbrev pub is_set : Option Bool → Bool
is_set none = false
is_set (some b) = b

unfoldable pub is_cancelled : String → Act Bool
is_cancelled task_id w = (ok (is_set (Dict.get w.cancel_events task_id)), w)

-- The scope's event, made if it is not there.
unfoldable pub on_cancel : String → Act (Unit {0})
on_cancel task_id w = (
  ok tt,
  record w {
    cancel_events = elim (Dict.get w.cancel_events task_id) [
      | none ↦ Dict.set w.cancel_events task_id false
      | some b ↦ w.cancel_events
    ];
  },
)

unfoldable pub cleanup_registry : String → Bool → Act (Unit {0})
cleanup_registry task_id release_key w = (
  ok tt,
  record w {
    cancel_events = if release_key then Dict.pop w.cancel_events task_id else w.cancel_events;
  },
)

unfoldable pub cleanup_bus : String → Act (Unit {0})
cleanup_bus task_id w = (ok tt, record w { bus = EventBus.cleanup w.bus task_id w.clock })

abbrev pub or_not_found : Option Task → Act Task
or_not_found none = raise task_not_found
or_not_found (some t) = pure t

unfoldable pub cancel_task : String → Act Task
cancel_task task_id = do
  found ← load task_id
  t ← or_not_found found
  if is_terminal t.status.state then raise (task_not_cancelable t.status.state) else do
    already ← is_cancelled task_id
    if already then pure tt else (do request_cancel task_id; spawn (force_cancel_after task_id))
    latest ← load task_id
    or_not_found latest

-- After the deadline. The cleanups run whatever the state, and their failures are swallowed.
unfoldable pub force_cancel_loaded : String → Option Task → Act (Unit {0})
force_cancel_loaded task_id none = pure tt
force_cancel_loaded task_id (some t) = do
  if is_terminal t.status.state
      then pure tt
      else cancel_task_in_storage task_id (some t.context_id)
          "Task was force-canceled after timeout." []
  cleanup_bus task_id
  cleanup_registry task_id true

unfoldable pub run_force_cancel : String → Act (Unit {0})
run_force_cancel task_id =
    try_except (do found ← load task_id; force_cancel_loaded task_id found) (λ e. pure tt)
