-- ===== src/Cancel.antt =====
-- cancel.py: `cancel_task_in_storage`, which TaskManager and WorkerAdapter share.
pub mod Settled
pub mod Escapes
pub mod Ended
pub mod Effect
use a2akit.Prelude.{ℕ, String, Bool, true, false, Option, none, some, List, [], ◌∷◌, if◌then◌else◌}
use a2akit.Wire.{
  Task, TaskState, canceled, Message, role_agent, Part, ArtifactWrite, terminal_marker, is_terminal,
}
use a2akit.Errors.{Error, concurrency, task_terminal_state, ok}
use a2akit.Push.Store.{text_or}
use a2akit.Storage.Update.{Update, no_update}
use a2akit.Emitter
use a2akit.Runtime.{Act, ◌>>=◌, ◌>>◌, pure, raise, try_except, get_version, load}

-- `except (ConcurrencyError, TaskTerminalStateError)`
abbrev pub is_conflict : Error → Bool
is_conflict (concurrency v) = true
is_conflict task_terminal_state = true
is_conflict _ = false

abbrev pub text_part : String → Part
text_part s = record {
  text = some s;
  raw = none;
  url = none;
  value = none;
  media_type = none;
  filename = none;
}

-- An agent message with one text part and a fresh identifier.
unfoldable pub agent_message : String → String → String → Act Message
agent_message reason task_id context_id w = (
  ok (record {
    role = role_agent;
    parts = text_part reason ∷ [];
    message_id = w.uuid;
    task_id = some task_id;
    context_id = some context_id;
  }),
  w,
)

-- A status event with the clock's reading, wrapped as the stream's last.
unfoldable pub send_final : String → String → TaskState → Message → Act (Unit {0})
send_final task_id context_id s m w =
    Emitter.send_event task_id
      (terminal_marker task_id context_id
        (record { state = s; timestamp = w.now; message = some m }))
      w

-- The transition with the message in the status and in the history, and the artifacts.
abbrev pub transition : TaskState → Message → List ArtifactWrite → Option ℕ → Update
transition s m artifacts version = record no_update {
  state = some s;
  status_message = some m;
  messages = m ∷ [];
  artifacts = artifacts;
  expected_version = version;
}

-- `if artifacts: try: update_task(artifacts=...) except Exception: log`
unfoldable pub write_artifacts : String → List ArtifactWrite → Act (Unit {0})
write_artifacts task_id [] = pure tt
write_artifacts task_id (a ∷ rest) =
    try_except (do Emitter.update_task task_id (record no_update { artifacts = a ∷ rest }); pure tt)
      (λ e. pure tt)

abbrev pub is_open : Option Task → Bool
is_open none = false
is_open (some t) = if is_terminal t.status.state then false else true

-- The second attempt, after a conflict: true if the transition was written.
unfoldable pub retry_transition : String → TaskState → Message → List ArtifactWrite → Act Bool
retry_transition task_id s m artifacts = do
  version ← get_version task_id
  task ← load task_id
  if is_open task
      then try_except (do Emitter.update_task task_id (transition s m artifacts version); pure true)
          (λ e.
            if is_conflict e then (do write_artifacts task_id artifacts; pure false) else raise e)
      else (do write_artifacts task_id artifacts; pure false)

unfoldable pub attempt_cancel : String → Message → List ArtifactWrite → Option ℕ → Act Bool
attempt_cancel task_id m artifacts version =
    try_except (do Emitter.update_task task_id (transition canceled m artifacts version); pure true)
      (λ e. if is_conflict e then retry_transition task_id canceled m artifacts else raise e)

unfoldable pub cancel_loaded :
    String → Option String → String → List ArtifactWrite → Option ℕ → Option Task → Act (Unit {0})
cancel_loaded task_id context_id reason artifacts version none = pure tt
cancel_loaded task_id context_id reason artifacts version (some t) =
    if is_terminal t.status.state then pure tt else do
      m ← agent_message reason task_id (text_or context_id t.context_id)
      written ← attempt_cancel task_id m artifacts version
      if written then send_final task_id (text_or context_id t.context_id) canceled m else pure tt

unfoldable pub cancel_task_in_storage :
    String → Option String → String → List ArtifactWrite → Act (Unit {0})
cancel_task_in_storage task_id context_id reason artifacts = do
  version ← get_version task_id
  task ← load task_id
  cancel_loaded task_id context_id reason artifacts version task
