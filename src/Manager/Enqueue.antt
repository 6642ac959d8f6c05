-- ===== src/Manager/Enqueue.antt =====
-- `_enqueue_or_fail`: a broker that refuses an operation fails the task, if no one has touched it.
use a2akit.Prelude.{String, ℕ, Bool, true, false, Option, none, some, [], if◌then◌else◌}
use a2akit.Wire.{Task, submitted, failed, terminal_marker}
use a2akit.Cancel.{agent_message, transition, is_conflict}
use a2akit.Emitter
use a2akit.Runtime.{Act, RunTask, ◌>>=◌, ◌>>◌, pure, raise, try_except, get_version, load, run_task}

abbrev is_submitted : Option Task → Bool
is_submitted none = false
is_submitted (some t) = elim t.status.state [ submitted ↦ true | _ ↦ false ]

abbrev pub announce_failure : String → Option Task → Act (Unit {0})
announce_failure task_id none = pure tt
announce_failure task_id (some t) =
    Emitter.send_event task_id (terminal_marker task_id t.context_id t.status)

unfoldable pub fail_submitted : String → Option ℕ → Option Task → Act (Unit {0})
fail_submitted task_id version none = pure tt
fail_submitted task_id version (some t) =
    if is_submitted (some t)
    then (do
      m ← agent_message "Failed to enqueue task" task_id t.context_id
      written ←
          try_except (do Emitter.update_task task_id (transition failed m [] version); pure true)
            (λ e. if is_conflict e then pure false else raise e)
      if written then (do latest ← load task_id; announce_failure task_id latest) else pure tt)
    else pure tt

unfoldable pub mark_enqueue_failed : String → Act (Unit {0})
mark_enqueue_failed task_id = do
  version ← get_version task_id
  task ← load task_id
  fail_submitted task_id version task

unfoldable pub enqueue_or_fail : String → RunTask → Act (Unit {0})
enqueue_or_fail task_id op =
    try_except (run_task op) (λ e. try_except (mark_enqueue_failed task_id) (λ e'. pure tt))
