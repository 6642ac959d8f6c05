-- ===== src/Worker/Adapter/Run.antt =====
-- worker/adapter.py: `_run_task_inner`. The user's worker is a parameter, and so are the task group
-- of anyio and the text of an exception; telemetry is left out.
use a2akit.Prelude.{ℕ, String, Bool, true, false, not, Option, none, some, [], ◌&&◌, if◌then◌else◌}
use a2akit.Wire.{Task, working, Message, is_terminal}
use a2akit.Errors.{
  Error, Result, ok, err, is_task_terminal, is_cancellation, value_error, cancelled_error,
}
use a2akit.Push.Store.{text_or}
use a2akit.Storage.Update.{no_update}
use a2akit.Cancel.{cancel_task_in_storage, write_artifacts, is_conflict}
use a2akit.Emitter
use a2akit.Manager.{truthy}
use a2akit.Manager.Cancellation.{is_cancelled, on_cancel, cleanup_bus, cleanup_registry}
use a2akit.Runtime.{World, Act, ◌>>=◌, ◌>>◌, pure, raise, try_except, load}
use a2akit.Worker.Context.{TaskContext}
use a2akit.Worker.Context.Lifecycle.{fail, send_status}
use a2akit.Worker.Adapter.{drain, mark_failed}

-- How the user's `handle` ended: it returned, it raised, or a cancellation cut it short, of the
-- watcher's own scope or of the server that shuts down.
pub data Ending : Type 0 where
  returned : Ending
  raised : Error → Ending
  cut_by_watcher : Ending
  cut_by_shutdown : Ending

-- What a run of the worker leaves: its ending, whether the cancel event is set by then, the context
-- and the world.
pub record Ran : Type 0 where
  pub ending : Ending
  pub cancelled : Bool
  pub ctx : TaskContext
  pub world : World

-- The code that is not the package's: the worker, what an anyio task group raises for an exception
-- of its body, and `str` of an exception.
pub record Outside : Type 0 where
  pub handle : TaskContext → World → Ran
  pub group_raises : Error → Error
  pub describe : Error → String

-- `TaskContextImpl.__init__`, as far as the turn goes: an empty buffer, and no version yet.
unfoldable pub fresh_context : Message → Act TaskContext
fresh_context m w = (
  ok (record {
    task_id = text_or m.task_id "";
    context_id = m.context_id;
    turn_ended = false;
    version = none;
    pending = [];
    last_flush = w.clock;
    flush_interval = 500;
    flush_count = 10;
  }),
  w,
)

-- `ContextFactory.build`: the history is loaded for a task that is not new; what the worker reads
-- of it is left out.
unfoldable pub build_context : Message → Bool → Act TaskContext
build_context m is_new =
    if not is_new && truthy m.task_id
    then (do load (text_or m.task_id ""); fresh_context m)
    else fresh_context m

-- What `async with create_task_group()` raises for the body's result.
abbrev grouped : Outside → Result (Unit {0}) → Result (Unit {0})
grouped o (ok x) = ok tt
grouped o (err e) = err (o.group_raises e)

abbrev pub no_lifecycle : String
no_lifecycle =
    "Worker returned without calling a lifecycle method (complete/fail/reject/respond/request_input/request_auth)"

-- The task group: the worker, and the failure of a turn that it left open.
unfoldable pub group_body : Outside → Ran → Result (Unit {0}) × TaskContext × World
group_body o r = elim r.ending [
  | returned ↦
      if r.ctx.turn_ended
      then (ok tt, r.ctx, r.world)
      else if r.cancelled
      then (ok tt, r.ctx, r.world)
      else (let (res, c, w) = fail no_lifecycle r.ctx r.world in (grouped o res, c, w))
  | raised e ↦ (err (o.group_raises e), r.ctx, r.world)
  | cut_by_watcher ↦ (ok tt, r.ctx, r.world)
  | cut_by_shutdown ↦ (err cancelled_error, r.ctx, r.world)
]

-- The cancellation with the drained buffer.
unfoldable pub cancel_turn : String → Option String → TaskContext → Act (Unit {0})
cancel_turn task_id context_id ctx =
    cancel_task_in_storage task_id context_id "Task was canceled." (drain ctx).0

-- The `except` clauses, in their order.
unfoldable pub except_clauses :
    Outside → Bool → String → Option String → TaskContext → Error → Act (Unit {0})
except_clauses o cancelled task_id context_id ctx e =
    if is_cancellation e
    then (if cancelled then cancel_turn task_id context_id ctx else raise e)
    else if is_task_terminal e
    then write_artifacts task_id (drain ctx).0
    else if ctx.turn_ended
    then pure tt
    else mark_failed task_id context_id (o.describe e) (drain ctx).0

-- The `try` around the task group.
unfoldable pub guarded :
    Outside
    → Bool
    → String
    → Option String
    → Result (Unit {0}) × TaskContext × World
    → Result (Unit {0}) × World
guarded o cancelled task_id context_id (ok x, ctx, w) =
    try_except
      (if cancelled && not ctx.turn_ended then cancel_turn task_id context_id ctx else pure tt)
      (except_clauses o cancelled task_id context_id (drain ctx).1) w
guarded o cancelled task_id context_id (err e, ctx, w) =
    except_clauses o cancelled task_id context_id ctx e w

-- The worker on a task that is now working.
unfoldable pub run_worker : Outside → String → Option String → TaskContext → Act (Unit {0})
run_worker o task_id context_id ctx w =
    let (r, ctx', w') = send_status none ctx w in
    let ran = o.handle ctx' w' in guarded o ran.cancelled task_id context_id (group_body o ran)

abbrev pub is_live : Option Task → Bool
is_live none = true
is_live (some t) = if is_terminal t.status.state then false else true

-- The transition to working: its new version, or nothing if another writer came first.
unfoldable pub start_working : String → Act (Option ℕ)
start_working task_id =
    try_except
      (do
        v ← Emitter.update_task task_id (record no_update { state = some working })
        pure (some v))
      (λ e. if is_conflict e then pure none else raise e)

abbrev pub started : Outside → String → Option String → TaskContext → Option ℕ → Act (Unit {0})
started o task_id context_id ctx none = pure tt
started o task_id context_id ctx (some v) =
    run_worker o task_id context_id (record ctx { version = some v })

-- The body of the outer `try`.
unfoldable pub run_body : Outside → Message → String → Bool → Act (Unit {0})
run_body o m task_id is_new = do
  cancelled ← is_cancelled task_id
  if cancelled
      then (do
        current ← load task_id
        if is_live current
            then cancel_task_in_storage task_id m.context_id "Task was canceled." []
            else pure tt)
      else (do
        ctx ← build_context m is_new
        version ← start_working task_id
        started o task_id m.context_id ctx version)

abbrev has_ended : Option Task → Bool
has_ended none = true
has_ended (some t) = is_terminal t.status.state

-- The `finally` block.
unfoldable pub finish_run : String → Act (Unit {0})
finish_run task_id = do
  current ← load task_id
  if has_ended current then cleanup_bus task_id else pure tt
  cleanup_registry task_id (has_ended current)

-- try: m finally: c, where c raises nothing
unfoldable pub try_finally : Act (Unit {0}) → Act (Unit {0}) → Act (Unit {0})
try_finally m c w = let (r, w') = m w in (r, (c w').1)

unfoldable pub run_task_inner : Outside → Message → Bool → Act (Unit {0})
run_task_inner o m is_new =
    if truthy m.task_id
    then (do
      on_cancel (text_or m.task_id "")
      try_finally (run_body o m (text_or m.task_id "") is_new) (finish_run (text_or m.task_id "")))
    else raise value_error
