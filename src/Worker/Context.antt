-- ===== src/Worker/Context.antt =====
-- worker/base.py: `TaskContextImpl`, its writes and its artifact buffer. A method takes the context
-- and the world and returns both, also when it raises. Times are in milliseconds. The lifecycle
-- methods are in Context/Lifecycle.antt.
pub mod Lifecycle
pub mod Buffer
pub mod Landing
pub mod Turns
pub mod Settled
use a2akit.Prelude.{
  ℕ, zero, suc, ◌-◌, String, Bool, true, false, Option, none, some, List, [], ◌∷◌, ◌++◌, length,
  leb, ◌&&◌, ◌||◌, if◌then◌else◌, is_some,
}
use a2akit.Dict.{Dict}
use a2akit.Wire.{
  TaskState, Task, TaskStatus, Message, ArtifactWrite, StreamEvent, MetaValue, status_update,
  terminal_marker, is_terminal, is_turn_end,
}
use a2akit.Errors.{
  Error, Result, ok, err, concurrency, is_concurrency, task_terminal_state, runtime_error,
}
use a2akit.Push.Store.{text_or}
use a2akit.Storage.Update.{Update, no_update}
use a2akit.Emitter
use a2akit.Runtime.{World, Act, ◌>>=◌, pure, raise, try_except, get_version, load}

pub record TaskContext : Type 0 where
  pub task_id : String
  pub context_id : Option String
  pub turn_ended : Bool
  pub version : Option ℕ
  pub pending : List ArtifactWrite
  pub last_flush : ℕ
  pub flush_interval : ℕ
  pub flush_count : ℕ

-- What a method returns: its result or exception, the context and the world.
abbrev pub Method : Type 0 → Type 0
Method A = TaskContext → World → Result A × TaskContext × World

-- `exc.current_version`
abbrev pub current_of : Error → Option ℕ
current_of (concurrency v) = v
current_of _ = none

-- current or await storage.get_version(task_id), where 0 is no version
unfoldable pub or_version : String → Option ℕ → Act (Option ℕ)
or_version task_id none = get_version task_id
or_version task_id (some zero) = get_version task_id
or_version task_id (some (suc v)) = pure (some (suc v))

abbrev fresh_version : String → Error → Act (Option ℕ)
fresh_version task_id e = or_version task_id (current_of e)

-- current if it is not None, else await storage.get_version(task_id)
unfoldable pub version_or_read : String → Option ℕ → Act (Option ℕ)
version_or_read task_id none = get_version task_id
version_or_read task_id (some v) = pure (some v)

abbrev pub known_version : String → Error → Act (Option ℕ)
known_version task_id e = version_or_read task_id (current_of e)

-- The second attempt of `_versioned_update`, on the task that was loaded after the conflict.
unfoldable pub retry_versioned : String → Update → Error → Option Task → Act ℕ
retry_versioned task_id u e none = raise task_terminal_state
retry_versioned task_id u e (some t) =
    if is_terminal t.status.state && (is_some u.state || is_some u.status_message)
    then raise task_terminal_state
    else (do
      v ← fresh_version task_id e
      Emitter.update_task task_id (record u { expected_version = v }))

-- `_versioned_update`, up to the assignment of the version that it returns.
unfoldable pub versioned_update : String → Option ℕ → Update → Act ℕ
versioned_update task_id version u =
    try_except (Emitter.update_task task_id (record u { expected_version = version })) (λ e.
      if is_concurrency e
      then (do found ← load task_id; retry_versioned task_id u e found)
      else raise e)

abbrev value_or {ℓ} : {A : Type ℓ} → Result (Option A) → Option A
value_or (ok v) = v
value_or (err e) = none

-- A conflict in a write that may be skipped: keep the buffer, and refresh the version.
unfoldable pub skip_write : TaskContext → Error → World → Result (Unit {0}) × TaskContext × World
skip_write ctx e w =
    let (v, w') = known_version ctx.task_id e w in (ok tt, record ctx { version = value_or v }, w')

unfoldable pub flushed : TaskContext → Result ℕ × World → Result (Unit {0}) × TaskContext × World
flushed ctx (ok v, w) =
    (ok tt, record ctx { version = some v; pending = []; last_flush = w.clock }, w)
flushed ctx (err e, w) = if is_concurrency e then skip_write ctx e w else (err e, ctx, w)

-- `_flush_artifacts` on the buffer's contents: the batch is back in the buffer whenever the write
-- raised.
unfoldable pub flush_batch : List ArtifactWrite → Method (Unit {0})
flush_batch [] ctx w = (ok tt, ctx, w)
flush_batch (a ∷ rest) ctx w =
    flushed ctx
      (versioned_update ctx.task_id ctx.version (record no_update { artifacts = a ∷ rest }) w)

unfoldable pub flush_artifacts : Method (Unit {0})
flush_artifacts ctx w = flush_batch ctx.pending ctx w

abbrev pub is_filled {ℓ} : {A : Type ℓ} → List A → Bool
is_filled [] = false
is_filled (x ∷ xs) = true

-- The interval or the count is reached.
abbrev pub is_due : TaskContext → ℕ → Bool
is_due ctx now =
    leb ctx.flush_interval (now - ctx.last_flush) || leb ctx.flush_count (length ctx.pending)

unfoldable pub maybe_flush : Method (Unit {0})
maybe_flush ctx w =
    if is_filled ctx.pending && is_due ctx w.clock then flush_artifacts ctx w else (ok tt, ctx, w)

abbrev pub context_of : TaskContext → String
context_of ctx = text_or ctx.context_id ""

-- `_emit_status`: the states that end the stream are wrapped in the marker.
unfoldable pub emit_status : TaskContext → TaskState → Option Message → Bool → World → World
emit_status ctx s m final w =
    let status : TaskStatus = record { state = s; timestamp = w.now; message = m } in
    let event : StreamEvent =
      if final
      then terminal_marker ctx.task_id (context_of ctx) status
      else status_update ctx.task_id (context_of ctx) status in
    (Emitter.send_event ctx.task_id event w).1

unfoldable pub send_events : String → List StreamEvent → World → World
send_events task_id [] w = w
send_events task_id (e ∷ es) w = send_events task_id es (Emitter.send_event task_id e w).1

-- The write of `_terminal_transition`.
abbrev pub lifecycle_update :
    TaskContext → TaskState → Option Message → List ArtifactWrite → Dict MetaValue → Update
lifecycle_update ctx s m artifacts metadata = record no_update {
  state = some s;
  status_message = m;
  messages = elim m [ none ↦ [] | some x ↦ x ∷ [] ];
  artifacts = ctx.pending ++ artifacts;
  task_metadata = metadata;
}

unfoldable pub transitioned :
    TaskContext
    → TaskState
    → Option Message
    → List StreamEvent
    → Result ℕ × World
    → Result (Unit {0}) × TaskContext × World
transitioned ctx s m pre_events (err e, w) = (err e, ctx, w)
transitioned ctx s m pre_events (ok v, w) =
    let ended = record ctx { version = some v; pending = []; turn_ended = true } in
    (
      ok tt,
      ended,
      emit_status ended s m (is_terminal s || is_turn_end s) (send_events ctx.task_id pre_events w),
    )

-- `_terminal_transition`: drain the buffer, persist, end the turn, emit.
unfoldable pub terminal_transition :
    TaskState
    → Option Message
    → List ArtifactWrite
    → Dict MetaValue
    → List StreamEvent
    → Method (Unit {0})
unfolding transitioned
terminal_transition s m artifacts metadata pre_events ctx w =
    if ctx.turn_ended
    then (err runtime_error, ctx, w)
    else transitioned ctx s m pre_events
        (versioned_update ctx.task_id ctx.version (lifecycle_update ctx s m artifacts metadata) w)
