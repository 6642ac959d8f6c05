-- ===== src/Emitter/Settled.antt =====
-- The emitter writes through the storage, and its hooks and events touch no task.
use a2akit.Prelude.{String, ◌≡◌, true, Option}
use a2akit.Wire.{TaskState, Message, StreamEvent, is_terminal}
use a2akit.Storage.Update.{Update}
use a2akit.Emitter.{update_task, fire_hooks, send_event}
use a2akit.Runtime.Steady.{Steady, steady_rules}
use a2akit.Runtime.Settled.{IsSettled, store-IsSettled}

module _ (k : String) (s : TaskState) (ended : is_terminal s ≡ true) where
  pub fire_hooks-IsSettled :
      (j : String) (r : Option TaskState) (m : Option Message)
      → Steady (IsSettled k s) (fire_hooks j r m)
  unfolding fire_hooks
  fire_hooks-IsSettled j r m = record { holds = λ w p. p }

  pub send_event-IsSettled :
      (j : String) (e : StreamEvent) → Steady (IsSettled k s) (send_event j e)
  unfolding send_event
  send_event-IsSettled j e = record { holds = λ w p. p }

  pub update_task-IsSettled : (j : String) (u : Update) → Steady (IsSettled k s) (update_task j u)
  unfolding update_task
  update_task-IsSettled j u = search (steady_rules, store-IsSettled k s ended, fire_hooks-IsSettled)
