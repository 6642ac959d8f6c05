-- ===== src/Cancel/Settled.antt =====
-- Cancellation against a task that has ended.
use a2akit.Prelude.{ℕ, String, ◌≡◌, true, Option, none, some, List, [], ◌∷◌}
use a2akit.Wire.{Task, TaskState, Message, ArtifactWrite, is_terminal}
use a2akit.Cancel.{
  agent_message, send_final, write_artifacts, retry_transition, attempt_cancel, cancel_loaded,
  cancel_task_in_storage,
}
use a2akit.Emitter.Settled.{update_task-IsSettled, send_event-IsSettled}
use a2akit.Runtime.Steady.{Steady, steady_rules}
use a2akit.Runtime.Settled.{IsSettled, load-IsSettled, get_version-IsSettled}

module _ (k : String) (s : TaskState) (ended : is_terminal s ≡ true) where
  pub agent_message-IsSettled :
      (reason j c : String) → Steady (IsSettled k s) (agent_message reason j c)
  unfolding agent_message
  agent_message-IsSettled reason j c = record { holds = λ w p. p }

  pub send_final-IsSettled :
      (j c : String) (r : TaskState) (m : Message) → Steady (IsSettled k s) (send_final j c r m)
  unfolding send_final
  send_final-IsSettled j c r m = record {
    holds = λ w p. (send_event-IsSettled k s ended j _).holds w p;
  }

  pub write_artifacts-IsSettled :
      (j : String) (ws : List ArtifactWrite) → Steady (IsSettled k s) (write_artifacts j ws)
  unfolding write_artifacts
  write_artifacts-IsSettled j [] = search steady_rules
  write_artifacts-IsSettled j (w ∷ ws) = search (steady_rules, update_task-IsSettled k s ended)

  pub retry_transition-IsSettled :
      (j : String) (r : TaskState) (m : Message) (ws : List ArtifactWrite)
      → Steady (IsSettled k s) (retry_transition j r m ws)
  unfolding retry_transition
  retry_transition-IsSettled j r m ws =
      search
        (
          steady_rules,
          update_task-IsSettled k s ended,
          get_version-IsSettled k s ended,
          load-IsSettled k s ended,
          write_artifacts-IsSettled,
        )
        depth 9

  attempt_cancel-IsSettled :
      (j : String) (m : Message) (ws : List ArtifactWrite) (v : Option ℕ)
      → Steady (IsSettled k s) (attempt_cancel j m ws v)
  unfolding attempt_cancel
  attempt_cancel-IsSettled j m ws v =
      search (steady_rules, update_task-IsSettled k s ended, retry_transition-IsSettled) depth 7

  cancel_loaded-IsSettled :
      (j : String) (c : Option String) (reason : String) (ws : List ArtifactWrite) (v : Option ℕ)
      (t : Option Task)
      → Steady (IsSettled k s) (cancel_loaded j c reason ws v t)
  unfolding cancel_loaded
  cancel_loaded-IsSettled j c reason ws v none = search steady_rules
  cancel_loaded-IsSettled j c reason ws v (some t) =
      search (steady_rules, agent_message-IsSettled, attempt_cancel-IsSettled, send_final-IsSettled)
        depth 9

  -- Cancelling a task, this one or another, with other writers acting before each of its storage
  -- calls, leaves a task that has ended in its state, as long as no one deletes it or creates a
  -- task under its identifier.
  pub cancel_task_in_storage-IsSettled :
      (j : String) (c : Option String) (reason : String) (ws : List ArtifactWrite)
      → Steady (IsSettled k s) (cancel_task_in_storage j c reason ws)
  unfolding cancel_task_in_storage
  cancel_task_in_storage-IsSettled j c reason ws =
      search
        (
          steady_rules,
          get_version-IsSettled k s ended,
          load-IsSettled k s ended,
          cancel_loaded-IsSettled,
        )
        depth 7
