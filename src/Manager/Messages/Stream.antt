-- ===== src/Manager/Messages/Stream.antt =====
-- task_manager.py: `stream_message`. What the generator yields is a value: the snapshot, then the
-- events.
use a2akit.Prelude.{ℕ, ℤ, String, Bool, not, ◌&&◌, Option, none, some, List, [], if◌then◌else◌}
use a2akit.Wire.{Task, SendMessageRequest, is_terminal}
use a2akit.EventBus.{BufferedEvent, iter_events}
use a2akit.Manager.{submit_task, truthy}
use a2akit.Runtime.{Act, Background, ◌>>=◌, ◌>>◌, pure, load, load_trimmed, spawn}
use a2akit.Manager.Messages.{
  open_context, tag_tenant, store_inline, extract_inline_push_config, history_length_of, task_or,
  with_subscription, job_of,
}

-- load_task(task.id, history_length=n), or the task where it is gone
abbrev pub reload : String → Task → Option ℤ → Act Task
reload task_id t none = do fresh ← load task_id; pure (task_or fresh t)
reload task_id t (some n) = do fresh ← load_trimmed task_id n; pure (task_or fresh t)

-- The first snapshot, trimmed where a length is given.
abbrev pub trimmed_task : String → Task → Option ℤ → Act Task
trimmed_task task_id t none = pure t
trimmed_task task_id t (some n) = reload task_id t (some n)

-- What `stream_message` yields: the snapshot, then events.
abbrev pub Stream : Type 0
Stream = Task × List BufferedEvent

-- Within the subscription.
unfoldable pub streamed :
    Bool → Background → Option ℤ → List BufferedEvent → Task → ℕ → List BufferedEvent → Act Stream
streamed should_enqueue job n live t bookmark buffer =
    let events = iter_events buffer live none bookmark in
    if should_enqueue then (do spawn job; pure (t, events)) else (do
      fresh ← reload t.id t n
      pure (fresh, if is_terminal fresh.status.state then [] else events))

unfoldable pub process_stream :
    SendMessageRequest → String → ℕ → List BufferedEvent → Task × Bool → Act Stream
process_stream p context_id stream live (t, should_enqueue) =
    let is_new = not (truthy p.message.task_id) in
    let n = history_length_of p.configuration in
    let context : String = if is_new then context_id else t.context_id in
    do
      tag_tenant (is_new && should_enqueue) t.id p.tenant
      store_inline t.id (extract_inline_push_config p.configuration)
      snapshot ← trimmed_task t.id t n
      with_subscription snapshot.id stream
          (streamed should_enqueue (job_of p context snapshot is_new) n live snapshot)

unfoldable pub stream_message :
    List String → SendMessageRequest → ℕ → List BufferedEvent → Act Stream
stream_message input_modes p stream live = do
  context_id ← open_context p.message
  submitted ← submit_task input_modes context_id p.message
  process_stream p context_id stream live submitted
