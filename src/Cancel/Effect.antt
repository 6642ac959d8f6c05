-- ===== src/Cancel/Effect.antt =====
-- What a cancellation does when no one else is at work.
use a2akit.Prelude.{
  ℕ, String, ◌≡◌, ◌⊎◌, inl, inr, refl, sym, ap, true, false, Option, none, some, List, [], arith,
  ◌∙◌,
}
use a2akit.Dict
use a2akit.Wire.{
  Task, TaskState, canceled, Message, ArtifactWrite, is_terminal, state_transitions_key,
}
use a2akit.Errors.{ok}
use a2akit.Storage.{load_task, view}
use a2akit.Storage.Update
use a2akit.Storage.Update.{Update, version_of}
use a2akit.Storage.Update.Content.{IsLog}
use a2akit.Cancel.{
  transition, attempt_cancel, cancel_loaded, cancel_task_in_storage, agent_message, send_final,
}
use a2akit.Emitter
use a2akit.Emitter.{send_event}
use a2akit.Emitter.Accepted.{update_task-Landed}
use a2akit.Emitter.Quiet.{after_update, update_task_quiet}
use a2akit.Runtime.{World, ◌>>=◌, pure, try_except, load, get_version}
use a2akit.Runtime.Quiet.{pause_quiet}
use a2akit.Runtime.Settled.{HasState}

module _ (k : String) (t : Task) (w : World) (quiet : w.schedule ≡ [])
    (found : Dict.get w.storage.tasks k ≡ some t) (running : is_terminal t.status.state ≡ false)
    (log : IsLog (Dict.get t.metadata state_transitions_key)) where
  current :
      (o : Option ℕ)
      → Dict.get w.storage.versions k ≡ o
      → (o ≡ none) ⊎ (o ≡ some (version_of w.storage k))
  current none e = inl refl
  current (some v) e = inr (ground arith)

  module _ (s : TaskState) (m : Message) (ws : List ArtifactWrite) where
    abbrev write : Update
    write = transition s m ws (Dict.get w.storage.versions k)

    -- The write of a transition is accepted, and the task is in its state.
    pub transition_quiet :
        ((v : ℕ) × (Emitter.update_task k write w ≡ (ok v, after_update w k write)))
        × HasState (after_update w k write).storage k s
    transition_quiet =
        let (v, e) =
          update_task_quiet w k write quiet (t, found, current _ refl, inr running, inr log) in
        let l = update_task-Landed k write w (ap (λ r. r.0) e) in
        (
          (v, e),
          (l.work, ap (λ r. Dict.get r.1.storage.tasks k) (sym e) ∙ l.stored, l.written.state),
        )

  attempt_cancel_quiet :
      (m : Message) (ws : List ArtifactWrite)
      → attempt_cancel k m ws (Dict.get w.storage.versions k) w
        ≡ (ok true, after_update w k (write canceled m ws))
  unfolding attempt_cancel try_except ◌>>=◌ pure
  attempt_cancel_quiet m ws = rw ((transition_quiet canceled m ws).0.1) refl

  cancel_loaded_quiet :
      (c : Option String) (reason : String) (ws : List ArtifactWrite) (t' : Task)
      → is_terminal t'.status.state ≡ false
      → let (r, w') = cancel_loaded k c reason ws (Dict.get w.storage.versions k) (some t') w in
        (r ≡ ok tt) × HasState w'.storage k canceled
  unfolding cancel_loaded agent_message send_final send_event ◌>>=◌
  cancel_loaded_quiet c reason ws t' o =
      rw o (rw (attempt_cancel_quiet _ ws) (refl, (transition_quiet canceled _ ws).1))

  -- With no other writer at work, the cancellation of a task that has not ended, and whose log slot
  -- holds a log or nothing, returns and leaves the task canceled.
  pub cancel_task_in_storage_quiet :
      (c : Option String) (reason : String) (ws : List ArtifactWrite)
      → let (r, w') = cancel_task_in_storage k c reason ws w in
        (r ≡ ok tt) × HasState w'.storage k canceled
  unfolding cancel_task_in_storage get_version load load_task ◌>>=◌ Update.get_version cancel_loaded
      Dict.get
  cancel_task_in_storage_quiet c reason ws =
      rw (pause_quiet w quiet, pause_quiet w quiet)
        (rw (found, load_task) (cancel_loaded_quiet c reason ws (view none true t) running))
