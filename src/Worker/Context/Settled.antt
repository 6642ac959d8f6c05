-- ===== src/Worker/Context/Settled.antt =====
-- The context's writes and a task that has ended.
use a2akit.Prelude.{
  ℕ, String, ◌≡◌, Bool, true, false, Option, none, some, List, [], ◌∷◌, zero, suc, if◌then◌else◌,
}
use a2akit.Dict.{Dict}
use a2akit.Wire.{Task, TaskState, Message, ArtifactWrite, MetaValue, StreamEvent, is_terminal}
use a2akit.Errors.{Error, Result, ok, err, runtime_error}
use a2akit.Storage.Update.{Update}
use a2akit.Emitter.Settled.{update_task-IsSettled, send_event-IsSettled}
use a2akit.Runtime.{World}
use a2akit.Runtime.Steady.{Steady, steady_rules}
use a2akit.Runtime.Settled.{IsSettled, get_version-IsSettled, load-IsSettled}
use a2akit.Worker.Context.{
  TaskContext, or_version, version_or_read, retry_versioned, versioned_update, emit_status,
  send_events, transitioned, terminal_transition, lifecycle_update,
}

module _ (k : String) (s : TaskState) (ended : is_terminal s ≡ true) where
  or_version-IsSettled : (j : String) (v : Option ℕ) → Steady (IsSettled k s) (or_version j v)
  unfolding or_version
  or_version-IsSettled j none = get_version-IsSettled k s ended j
  or_version-IsSettled j (some zero) = get_version-IsSettled k s ended j
  or_version-IsSettled j (some (suc v)) = search steady_rules

  version_or_read-IsSettled :
      (j : String) (v : Option ℕ) → Steady (IsSettled k s) (version_or_read j v)
  unfolding version_or_read
  version_or_read-IsSettled j none = get_version-IsSettled k s ended j
  version_or_read-IsSettled j (some v) = search steady_rules

  retry_versioned-IsSettled :
      (j : String) (u : Update) (e : Error) (t : Option Task)
      → Steady (IsSettled k s) (retry_versioned j u e t)
  unfolding retry_versioned
  retry_versioned-IsSettled j u e none = search steady_rules
  retry_versioned-IsSettled j u e (some t) =
      search (steady_rules, or_version-IsSettled, update_task-IsSettled k s ended)

  pub versioned_update-IsSettled :
      (j : String) (v : Option ℕ) (u : Update) → Steady (IsSettled k s) (versioned_update j v u)
  unfolding versioned_update
  versioned_update-IsSettled j v u =
      search
        (
          steady_rules,
          update_task-IsSettled k s ended,
          load-IsSettled k s ended,
          retry_versioned-IsSettled,
        )
        depth 7

  send_events-IsSettled :
      (j : String) (es : List StreamEvent) (w : World)
      → IsSettled k s w
      → IsSettled k s (send_events j es w)
  unfolding send_events
  send_events-IsSettled j [] w p = p
  send_events-IsSettled j (e ∷ es) w p =
      send_events-IsSettled j es _ ((send_event-IsSettled k s ended j e).holds w p)

  transitioned-IsSettled :
      (ctx : TaskContext) (r : TaskState) (m : Option Message) (es : List StreamEvent)
      (o : Result ℕ) (w : World)
      → IsSettled k s w
      → IsSettled k s (transitioned ctx r m es (o, w)).2
  unfolding transitioned emit_status
  transitioned-IsSettled ctx r m es (err e) w p = p
  transitioned-IsSettled ctx r m es (ok v) w p =
      (send_event-IsSettled k s ended ctx.task_id _).holds _
        (send_events-IsSettled ctx.task_id es w p)

  -- A lifecycle method, on this task or another, with other writers acting before each storage call,
  -- leaves a task that has ended in its state, as long as no one deletes it or creates a task under
  -- its identifier.
  pub terminal_transition-IsSettled :
      (r : TaskState) (m : Option Message) (ws : List ArtifactWrite) (md : Dict MetaValue)
      (es : List StreamEvent) (ctx : TaskContext) (w : World)
      → IsSettled k s w
      → IsSettled k s (terminal_transition r m ws md es ctx w).2
  unfolding terminal_transition
  terminal_transition-IsSettled r m ws md es ctx w p =
      let written = versioned_update ctx.task_id ctx.version (lifecycle_update ctx r m ws md) w in
      unless ctx.turn_ended (transitioned ctx r m es written) (
        transitioned-IsSettled ctx r m es written.0 written.1 (
          (versioned_update-IsSettled ctx.task_id ctx.version
              (lifecycle_update ctx r m ws md)).holds
            w p))
    where
      unless :
          (b : Bool) (next : Result (Unit {0}) × TaskContext × World)
          → IsSettled k s next.2
          → IsSettled k s (if b then (err runtime_error, ctx, w) else next).2
      unless true next q = p
      unless false next q = q
