-- ===== src/Worker/Adapter.antt =====
-- worker/adapter.py: `WorkerAdapter`. Here `_mark_failed` and the draining of the buffer; the run of
-- one operation and its acknowledgement are in the modules below. The loop that receives
-- operations, its semaphore and the lock factory are not modelled.
pub mod Run
pub mod Handle
pub mod Settled
pub mod Deliveries
use a2akit.Prelude.{String, Option, List, [], true, false, if◌then◌else◌, Bool}
use a2akit.Wire.{failed, Message, ArtifactWrite}
use a2akit.Errors.{Error, is_task_terminal, is_concurrency}
use a2akit.Push.Store.{text_or}
use a2akit.Cancel.{agent_message, send_final, transition, write_artifacts, retry_transition}
use a2akit.Emitter
use a2akit.Runtime.{Act, ◌>>=◌, ◌>>◌, pure, raise, try_except, get_version}
use a2akit.Worker.Context.{TaskContext}

-- `_drain_pending_artifacts`: the buffer, and the context without it.
unfoldable pub drain : TaskContext → List ArtifactWrite × TaskContext
drain ctx = (ctx.pending, record ctx { pending = [] })

-- The two `except` clauses of the first attempt: true if the second one wrote the failure.
unfoldable pub failed_attempt : String → Message → List ArtifactWrite → Error → Act Bool
failed_attempt task_id m artifacts e =
    if is_task_terminal e
    then (do write_artifacts task_id artifacts; pure false)
    else if is_concurrency e
    then retry_transition task_id failed m artifacts
    else raise e

-- `_mark_failed`
unfoldable pub mark_failed : String → Option String → String → List ArtifactWrite → Act (Unit {0})
mark_failed task_id context_id reason artifacts = do
  m ← agent_message reason task_id (text_or context_id "")
  version ← get_version task_id
  written ←
      try_except (do Emitter.update_task task_id (transition failed m artifacts version); pure true)
        (failed_attempt task_id m artifacts)
  if written then send_final task_id (text_or context_id "") failed m else pure tt
