-- ===== src/Cancel/Escapes.antt =====
-- Which exceptions a cancellation lets out.
use a2akit.Prelude.{ℕ, String, ◌≡◌, false, Option, none, some, List, [], ◌∷◌}
use a2akit.Wire.{Task, TaskState, Message, ArtifactWrite}
use a2akit.Errors.{Error}
use a2akit.Cancel.{
  agent_message, send_final, write_artifacts, retry_transition, attempt_cancel, cancel_loaded,
  cancel_task_in_storage, is_conflict,
}
use a2akit.Emitter.{send_event}
use a2akit.Runtime.{get_version, load}
use a2akit.Runtime.Outcomes.{Raises, raises_rules}

abbrev pub NoConflict : Error → Type 0
NoConflict e = is_conflict e ≡ false

get_version-Raises : (k : String) → Raises NoConflict (get_version k)
unfolding get_version
get_version-Raises k = record { only = λ w e h. cc }

load-Raises : (k : String) → Raises NoConflict (load k)
unfolding load
load-Raises k = record { only = λ w e h. cc }

agent_message-Raises : (reason k c : String) → Raises NoConflict (agent_message reason k c)
unfolding agent_message
agent_message-Raises reason k c = record { only = λ w e h. cc }

send_final-Raises :
    (k c : String) (s : TaskState) (m : Message) → Raises NoConflict (send_final k c s m)
unfolding send_final send_event
send_final-Raises k c s m = record { only = λ w e h. cc }

write_artifacts-Raises :
    (k : String) (ws : List ArtifactWrite) → Raises NoConflict (write_artifacts k ws)
unfolding write_artifacts
write_artifacts-Raises k [] = search raises_rules
write_artifacts-Raises k (a ∷ ws) = search raises_rules

retry_transition-Raises :
    (k : String) (s : TaskState) (m : Message) (ws : List ArtifactWrite)
    → Raises NoConflict (retry_transition k s m ws)
unfolding retry_transition
retry_transition-Raises k s m ws =
    search (raises_rules, get_version-Raises, load-Raises, write_artifacts-Raises) depth 9

attempt_cancel-Raises :
    (k : String) (m : Message) (ws : List ArtifactWrite) (v : Option ℕ)
    → Raises NoConflict (attempt_cancel k m ws v)
unfolding attempt_cancel
attempt_cancel-Raises k m ws v = search (raises_rules, retry_transition-Raises) depth 7

cancel_loaded-Raises :
    (k : String) (c : Option String) (reason : String) (ws : List ArtifactWrite) (v : Option ℕ)
    (t : Option Task)
    → Raises NoConflict (cancel_loaded k c reason ws v t)
unfolding cancel_loaded
cancel_loaded-Raises k c reason ws v none = search raises_rules
cancel_loaded-Raises k c reason ws v (some t) =
    search (raises_rules, agent_message-Raises, attempt_cancel-Raises, send_final-Raises) depth 9

-- A cancellation never raises ConcurrencyError or TaskTerminalStateError, whatever other writers do
-- before each of its storage calls.
pub cancel_task_in_storage-Raises :
    (k : String) (c : Option String) (reason : String) (ws : List ArtifactWrite)
    → Raises NoConflict (cancel_task_in_storage k c reason ws)
unfolding cancel_task_in_storage
cancel_task_in_storage-Raises k c reason ws =
    search (raises_rules, get_version-Raises, load-Raises, cancel_loaded-Raises) depth 7
