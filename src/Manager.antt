-- ===== src/Manager.antt =====
-- task_manager.py: `TaskManager`, the submission of messages. Its constant settings are a record;
-- the emitter is that of Emitter.antt. Sending, cancelling and the broker's failures are in the
-- modules below.
pub mod Validation
pub mod Refusal
pub mod Enqueue
pub mod Cancellation
pub mod Send
pub mod Messages
pub mod Settled
use a2akit.Prelude.{
  ℕ, String, Bool, true, false, not, Option, none, some, List, [], ◌∷◌, any, ◌==◌, ◌&&◌,
  if◌then◌else◌,
}
use a2akit.Dict
use a2akit.Wire.{
  TaskState, submitted, Task, Role, role_agent, role_user, Part, Message, MetaValue, text, flag,
  transitions, status_update, is_terminal, is_turn_end, just_created_key,
}
use a2akit.Errors.{
  Error, task_not_found, task_terminal_state, context_mismatch, task_not_accepting_messages,
  content_type_not_supported, is_concurrency, runtime_error, ok,
}
use a2akit.Parts
use a2akit.Parts.{Kind, part_kind}
use a2akit.Push.Store.{text_or}
use a2akit.Storage.Update.{Update, no_update}
use a2akit.Emitter
use a2akit.Runtime.{Act, ◌>>=◌, ◌>>◌, pure, raise, try_except, get_version, load, create}

-- `if s:` for an optional text
abbrev pub truthy : Option String → Bool
truthy none = false
truthy (some s) = not (s == "")

-- `value or default` for a media type
abbrev media_or : Part → String → String
media_or p d = text_or p.media_type d

-- The type that a part counts as; a part with no content has none.
unfoldable pub effective_type : Part → Option String
effective_type p = elim (part_kind p) [
  | Kind.text ↦ some "text/plain"
  | Kind.raw ↦ some (media_or p "application/octet-stream")
  | Kind.url ↦ some (media_or p "application/octet-stream")
  | Kind.data_part ↦ some (media_or p "application/json")
  | Kind.empty ↦ none
]

-- The first part whose type is not among the modes.
unfoldable pub unsupported_part : List String → List Part → Option String
unsupported_part modes [] = none
unsupported_part modes (p ∷ ps) =
    let rest = unsupported_part modes ps in
    elim (effective_type p) [
      | none ↦ rest
      | some t ↦ if any (λ m. t == m) modes then rest else some t
    ]

abbrev pub refuse : Option String → Act (Unit {0})
refuse none = pure tt
refuse (some t) = raise (content_type_not_supported t)

unfoldable pub validate_input_modes : List String → List Part → Act (Unit {0})
validate_input_modes [] parts = pure tt
validate_input_modes (mode ∷ modes) parts = refuse (unsupported_part (mode ∷ modes) parts)

unfoldable pub is_agent_role : Role → Bool
is_agent_role role_agent = true
is_agent_role role_user = false

-- The preconditions of a follow-up on the task that was loaded.
unfoldable pub validated : Message → Option Task → Act Task
unfolding is_agent_role
validated m none = raise task_not_found
validated m (some t) =
    if is_terminal t.status.state
    then raise task_terminal_state
    else if truthy m.context_id && not (text_or m.context_id "" == t.context_id)
    then raise context_mismatch
    else if not (is_turn_end t.status.state) && not (is_agent_role m.role)
    then raise (task_not_accepting_messages t.status.state)
    else pure t

unfoldable pub load_and_validate : String → Message → Act Task
load_and_validate task_id m = do task ← load task_id; validated m task

unfoldable pub compute_state_transition : Task → Option TaskState
compute_state_transition t = if is_turn_end t.status.state then some submitted else none

-- any(m.message_id == message.message_id for m in task.history)
abbrev pub has_message : String → Task → Bool
has_message message_id t = any (λ m. m.message_id == message_id) t.history

-- bool(md.pop("_a2akit_just_created", False))
abbrev pub truth : Option MetaValue → Bool
truth none = false
truth (some (text s)) = not (s == "")
truth (some (flag b)) = b
truth (some (transitions [])) = false
truth (some (transitions (r ∷ rs))) = true

unfoldable pub submit_new : String → Message → Act (Task × Bool)
submit_new context_id m = do
  t ← create context_id m (some m.message_id)
  pure (
    record t { metadata = Dict.pop t.metadata just_created_key },
    truth (Dict.get t.metadata just_created_key),
  )

-- What the follow-up writes.
abbrev pub follow_up : Message → Task → Option ℕ → Update
follow_up m t version = record no_update {
  state = compute_state_transition t;
  messages = record m { context_id = some (text_or m.context_id t.context_id) } ∷ [];
  expected_version = version;
}

-- After a conflict: the twin's message is a duplicate, an ended task has its own error.
unfoldable pub resolve_conflict : Message → Error → Option Task → Act Task
resolve_conflict m e none = raise e
resolve_conflict m e (some t) =
    if has_message m.message_id t
    then pure t
    else if is_terminal t.status.state
    then raise task_terminal_state
    else raise e

-- The write: nothing if it was accepted, else the task that a twin request has written.
unfoldable pub write_follow_up : Message → Task → Option ℕ → Act (Option Task)
write_follow_up m t version =
    try_except (do Emitter.update_task t.id (follow_up m t version); pure none)
      (λ e.
        if is_concurrency e
        then (do found ← load t.id; twin ← resolve_conflict m e found; pure (some twin))
        else raise e)

unfoldable pub announce : Task → Option TaskState → Act (Unit {0})
announce t none w = (ok tt, w)
announce t (some s) w =
    Emitter.send_event t.id
      (status_update t.id t.context_id (record { state = s; timestamp = w.now; message = none })) w

abbrev pub or_vanished : Option Task → Act Task
or_vanished none = raise runtime_error
or_vanished (some t) = pure t

abbrev pub finish_follow_up : Task → Option Task → Act (Task × Bool)
finish_follow_up t (some twin) = pure (twin, false)
finish_follow_up t none = do
  announce t (compute_state_transition t)
  updated ← load t.id
  latest ← or_vanished updated
  pure (latest, true)

unfoldable pub submit_follow_up : String → Message → Act (Task × Bool)
submit_follow_up task_id m = do
  version ← get_version task_id
  t ← load_and_validate task_id m
  if has_message m.message_id t
      then pure (t, false)
      else do outcome ← write_follow_up m t version; finish_follow_up t outcome

-- `if not message.task_id:` is true of None and of the empty text.
unfoldable pub submit_task : List String → String → Message → Act (Task × Bool)
submit_task input_modes context_id m = do
  validate_input_modes input_modes m.parts
  if truthy m.task_id then submit_follow_up (text_or m.task_id "") m else submit_new context_id m
