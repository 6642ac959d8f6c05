-- ===== src/Worker/Adapter/Settled.antt =====
-- The adapter and a task that has ended.
use a2akit.Prelude.{
  ℕ, String, ◌≡◌, ◌≢◌, ◌⊎◌, inl, inr, refl, Bool, Bool-cases, true, false, Option, none, some, List,
  if◌then◌else◌,
}
use a2akit.Dict
use a2akit.Wire.{Task, TaskState, working, Message, ArtifactWrite, is_terminal}
use a2akit.Errors.{Error, Result, Result-cases, ok, err}
use a2akit.Push.Store.{text_or}
use a2akit.Cancel.{is_conflict}
use a2akit.Cancel.Settled.{
  agent_message-IsSettled, send_final-IsSettled, write_artifacts-IsSettled,
  retry_transition-IsSettled,
}
use a2akit.Emitter
use a2akit.Emitter.{fire_hooks}
use a2akit.Emitter.Settled.{update_task-IsSettled}
use a2akit.Manager.{truthy}
use a2akit.Manager.Cancellation.{is_set, is_cancelled, on_cancel}
use a2akit.Storage.Update.{Update, no_update}
use a2akit.Storage.Update.Guards.{update_task-cases}
use a2akit.Runtime.{World, Act, resume, pause, store, pure, raise, try_except, ◌>>=◌}
use a2akit.Runtime.Steady.{Steady, steady_rules}
use a2akit.Runtime.Settled.{
  IsSettled, HasState, pause-IsSettled, get_version-IsSettled, load-IsSettled,
}
use a2akit.Worker.Context.{TaskContext}
use a2akit.Worker.Adapter.{mark_failed, failed_attempt}
use a2akit.Worker.Adapter.Run.{
  Outside, fresh_context, build_context, start_working, started, run_body, run_task_inner,
  try_finally, finish_run,
}

module _ (k : String) (s : TaskState) (ended : is_terminal s ≡ true) where
  failed_attempt-IsSettled :
      (j : String) (m : Message) (ws : List ArtifactWrite) (e : Error)
      → Steady (IsSettled k s) (failed_attempt j m ws e)
  unfolding failed_attempt
  failed_attempt-IsSettled j m ws e =
      search
        (steady_rules, write_artifacts-IsSettled k s ended, retry_transition-IsSettled k s ended)
        depth 7

  -- Marking a task as failed, this one or another, with other writers acting before each storage
  -- call, leaves a task that has ended in its state, as long as no one deletes it or creates a task
  -- under its identifier.
  pub mark_failed-IsSettled :
      (j : String) (c : Option String) (reason : String) (ws : List ArtifactWrite)
      → Steady (IsSettled k s) (mark_failed j c reason ws)
  unfolding mark_failed
  mark_failed-IsSettled j c reason ws =
      search
        (
          steady_rules,
          agent_message-IsSettled k s ended,
          get_version-IsSettled k s ended,
          update_task-IsSettled k s ended,
          failed_attempt-IsSettled,
          send_final-IsSettled k s ended,
        )
        depth 9

  fresh_context-IsSettled : (m : Message) → Steady (IsSettled k s) (fresh_context m)
  unfolding fresh_context
  fresh_context-IsSettled m = record { holds = λ w p. p }

  build_context-IsSettled :
      (m : Message) (is_new : Bool) → Steady (IsSettled k s) (build_context m is_new)
  unfolding build_context
  build_context-IsSettled m is_new =
      search (steady_rules, load-IsSettled k s ended, fresh_context-IsSettled)

  abbrev to_working : Update
  to_working = record no_update { state = some working }

  refused : (w : World) → IsSettled k s w → (v : ℕ) → (Emitter.update_task k to_working w).0 ≢ ok v
  unfolding Emitter.update_task fire_hooks store ◌>>=◌ pure
  refused w p v h = elim (update_task-cases (pause w).storage k to_working (pause w).now) [
    | inl (e, q) ↦ cc (rw q at h)
    | inr (t, work, a) ↦ still_open t a.found (pause-IsSettled k s ended w p).0 a.open_state
  ]
    where
      still_open :
          (t : Task)
          → Dict.get (pause w).storage.tasks k ≡ some t
          → HasState (pause w).storage k s
          → (to_working.state ≡ none) ⊎ (is_terminal t.status.state ≡ false)
          → ⊥
      still_open t found (t', found', e) (inl q) = cc
      still_open t found (t', found', e) (inr q) = cc

  start_refused : (w : World) → IsSettled k s w → (v : ℕ) → (start_working k w).0 ≢ ok (some v)
  unfolding start_working try_except ◌>>=◌ pure raise
  start_refused w p v h = elim (Result-cases (Emitter.update_task k to_working w).0) [
    | inl (e, q) ↦ not_started e (is_conflict e) _ (rw q at h)
    | inr (v', q) ↦ absurd (refused w p v' q)
  ]
    where
      not_started :
          (e : Error) (b : Bool) (x : World)
          → ((if b then pure none else raise e) x).0 ≢ ok (some v)
      not_started e true x q = cc
      not_started e false x q = cc

module _ (o o' : Outside) (k : String) (c : Option String) where
  same_start :
      (ctx : TaskContext) (r : Result (Option ℕ)) (w : World)
      → ((v : ℕ) → r ≢ ok (some v))
      → resume r (started o k c ctx) w ≡ resume r (started o' k c ctx) w
  same_start ctx (ok none) w n = refl
  same_start ctx (ok (some v)) w n = absurd (n v refl)
  same_start ctx (err e) w n = refl

  same_context :
      (s : TaskState) (ended : is_terminal s ≡ true) (r : Result TaskContext) (w : World)
      → IsSettled k s w
      → resume r (λ ctx. start_working k >>= started o k c ctx) w
        ≡ resume r (λ ctx. start_working k >>= started o' k c ctx) w
  unfolding ◌>>=◌
  same_context s ended (ok ctx) w p =
      same_start ctx _ (start_working k w).1 (start_refused k s ended w p)
  same_context s ended (err e) w p = refl

module _ (o o' : Outside) (m : Message) (is_new : Bool) (s : TaskState)
    (ended : is_terminal s ≡ true) where
  same_body :
      (k : String) (w : World)
      → IsSettled k s w
      → run_body o m k is_new w ≡ run_body o' m k is_new w
  unfolding run_body is_cancelled ◌>>=◌
  same_body k w p = elim (Bool-cases (is_set (Dict.get w.cancel_events k))) [
    | inl t ↦ rw t refl
    | inr f ↦ rw f (
        same_context o o' k m.context_id s ended (build_context m is_new w).0
          (build_context m is_new w).1 ((build_context-IsSettled k s ended m is_new).holds w p))
  ]

  -- A task that has ended is never handed to the worker: whichever worker there is, the run of an
  -- operation on it returns the same and leaves the same world. Other writers may act before each
  -- storage call, as long as they neither delete the task nor create one under its identifier.
  pub run_task_inner_ended :
      (w : World)
      → IsSettled (text_or m.task_id "") s w
      → run_task_inner o m is_new w ≡ run_task_inner o' m is_new w
  unfolding run_task_inner try_finally on_cancel ◌>>=◌
  run_task_inner_ended w p = elim (Bool-cases (truthy m.task_id)) [
    | inl t ↦
        let k = text_or m.task_id "" in
        let w' = (on_cancel k w).1 in
        rw t (
          finally (run_body o m k is_new) (run_body o' m k is_new) (finish_run k) w'
            (same_body k w' p))
    | inr f ↦ rw f refl
  ]
    where
      finally :
          (f g c : Act (Unit {0})) (x : World) → f x ≡ g x → try_finally f c x ≡ try_finally g c x
      finally f g c x e = rw e refl
