-- ===== src/Http/Frames.antt =====
-- _stream_v10.py, and the generators `_sse_gen` of jsonrpc_v10.py: the frames of a stream of events.
-- The generator that it reads is the list of what that yields.
pub mod Index
use text.Mathlib.Text.{starts_with}
use a2akit.Prelude.{
  ℕ, ◌+◌, String, Bool, true, false, not, ◌==◌, Option, none, some, List, [], ◌∷◌, keep, length,
  eqb, if◌then◌else◌,
}
use a2akit.Dict
use a2akit.Dict.{Dict}
use a2akit.Wire.{
  Task, Message, TaskStatus, Artifact, StreamEvent, snapshot, message, status_update,
  artifact_update, direct_reply, terminal_marker,
}
use a2akit.EventBus.{BufferedEvent, is_stream_terminal}

unfoldable pub sanitize_task_v10 : Task → Task
sanitize_task_v10 t =
    let cleaned = keep (λ e. not (starts_with e.0 "_")) t.metadata in
    if eqb (length cleaned) (length t.metadata) then t else record t { metadata = cleaned }

-- The payload, under its discriminator. The closing one is the status event of v0.3 with `final`.
pub data Wrapped : Type 0 where
  task_payload : Task → Wrapped
  message_payload : Message → Wrapped
  closing_payload : String → String → TaskStatus → Wrapped
  status_payload : String → String → TaskStatus → Wrapped
  artifact_payload : String → String → Artifact → Bool → Bool → Option ℕ → Wrapped

abbrev pub one_more : Option ℕ → Option ℕ
one_more none = none
one_more (some i) = some (i + 1)

-- for i, a in enumerate(artifacts): the first with the identifier
unfoldable pub artifact_index : String → List Artifact → Option ℕ
artifact_index artifact_id [] = none
artifact_index artifact_id (a ∷ rest) =
    let later = artifact_index artifact_id rest in
    if a.artifact_id == artifact_id then some 0 else one_more later

abbrev pub cached_index : Option Task → String → Option ℕ
cached_index none artifact_id = none
cached_index (some t) artifact_id = artifact_index artifact_id t.artifacts

-- Each event of the model has a payload: the final `return None` is for other classes.
unfoldable pub wrap_stream_event_v10 : StreamEvent → Dict Task → Wrapped × Dict Task
wrap_stream_event_v10 (direct_reply m) cache = (message_payload m, cache)
wrap_stream_event_v10 (terminal_marker task_id context_id status) cache =
    (status_payload task_id context_id status, cache)
wrap_stream_event_v10 (snapshot t) cache =
    let sanitized = sanitize_task_v10 t in
    (task_payload sanitized, Dict.set cache sanitized.id sanitized)
wrap_stream_event_v10 (message m) cache = (message_payload m, cache)
wrap_stream_event_v10 (status_update task_id context_id status) cache =
    (status_payload task_id context_id status, cache)
wrap_stream_event_v10 (artifact_update task_id context_id a append last) cache = (
  artifact_payload task_id context_id a append last
      (cached_index (Dict.get cache task_id) a.artifact_id),
  cache,
)

abbrev pub is_direct_reply : StreamEvent → Bool
is_direct_reply (direct_reply m) = true
is_direct_reply _ = false

-- A frame: the event's identifier, if it has one, and the payload.
abbrev pub Frame : Type 0
Frame = Option ℕ × Wrapped

-- async for event_id, event in agen
unfoldable pub later_frames : Dict Task → List BufferedEvent → List Frame
later_frames cache [] = []
later_frames cache (b ∷ bs) =
    let (payload, cache') = wrap_stream_event_v10 b.event cache in
    let rest = later_frames cache' bs in
    let skipped = later_frames cache bs in
    if is_direct_reply b.event
    then skipped
    else (some b.id, payload) ∷ (if is_stream_terminal b.event then [] else rest)

-- `_sse_gen`, on the first pair and on what follows it
unfoldable pub sse_frames : Option ℕ → StreamEvent → List BufferedEvent → List Frame
sse_frames event_id first later =
    let (payload, cache) = wrap_stream_event_v10 first [] in
    (event_id, payload) ∷ later_frames cache later
