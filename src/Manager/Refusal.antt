-- ===== src/Manager/Refusal.antt =====
-- What the manager does when the broker refuses an operation and no one else is at work.
use a2akit.Prelude.{String, ◌≡◌, refl, true, false, Option, none, some, [], ◌∷◌, ap, sym, subst}
use a2akit.Dict
use a2akit.Wire.{Task, submitted, failed, role_agent, Message, is_terminal, state_transitions_key}
use a2akit.Errors.{Result, ok, err}
use a2akit.Storage.{load_task, view}
use a2akit.Storage.Update
use a2akit.Storage.Update.Content.{IsLog}
use a2akit.Cancel.{agent_message, text_part, transition}
use a2akit.Storage.Update.{Update}
use a2akit.Emitter.Quiet.{after_update}
use a2akit.Cancel.Effect.{transition_quiet}
use a2akit.Emitter.{send_event}
use a2akit.Manager.Enqueue.{announce_failure, fail_submitted, mark_enqueue_failed, enqueue_or_fail}
use a2akit.Runtime.{World, RunTask, handle, ◌>>=◌, pure, try_except, load, get_version, run_task}
use a2akit.Runtime.Quiet.{pause_quiet}
use a2akit.Runtime.Settled.{HasState}

announced :
    (k : String) (o : Option Task) (w : World)
    → ((announce_failure k o w).0 ≡ ok tt) × ((announce_failure k o w).1.storage ≡ w.storage)
unfolding send_event pure
announced k none w = (refl, refl)
announced k (some t) w = (refl, refl)

module _ (k : String) (t : Task) (w : World) (quiet : w.schedule ≡ [])
    (found : Dict.get w.storage.tasks k ≡ some t) (fresh : t.status.state ≡ submitted)
    (log : IsLog (Dict.get t.metadata state_transitions_key)) where
  abbrev note : Task → Message
  note t' = record {
    role = role_agent;
    parts = text_part "Failed to enqueue task" ∷ [];
    message_id = w.uuid;
    task_id = some k;
    context_id = some t'.context_id;
  }

  abbrev failure : Task → Update
  failure t' = transition failed (note t') [] (Dict.get w.storage.versions k)

  abbrev after : Task → World
  after t' = after_update w k (failure t')

  told :
      (t' : Task)
      → let (r, w') = announce_failure k (load_task (after t').storage k none true) (after t') in
        (r ≡ ok tt) × HasState w'.storage k failed
  told t' =
      let (returned, same) = announced k (load_task (after t').storage k none true) (after t') in
      (
        returned,
        subst (λ st. HasState st k failed) (sym same)
            (transition_quiet k t w quiet found (ap is_terminal fresh) log failed (note t') []).1,
      )

  fail_submitted_quiet :
      (t' : Task)
      → t'.status.state ≡ submitted
      → let (r, w') = fail_submitted k (Dict.get w.storage.versions k) (some t') w in
        (r ≡ ok tt) × HasState w'.storage k failed
  unfolding fail_submitted agent_message try_except load ◌>>=◌ pure
  fail_submitted_quiet t' f =
      let (v, e) =
        (transition_quiet k t w quiet found (ap is_terminal fresh) log failed (note t') []).0 in
      simp (f, e, pause_quiet (after t') quiet) (told t')

  mark_enqueue_failed_quiet :
      let (r, w') = mark_enqueue_failed k w in (r ≡ ok tt) × HasState w'.storage k failed
  unfolding mark_enqueue_failed get_version load load_task Dict.get ◌>>=◌ Update.get_version
      fail_submitted
  mark_enqueue_failed_quiet =
      rw (pause_quiet w quiet, pause_quiet w quiet)
        (rw (found, load_task) (fail_submitted_quiet (view none true t) fresh))

  caught :
      (r : Result (Unit {0})) (x : World)
      → r ≡ ok tt
      → HasState x.storage k failed
      → let (r', w') = handle r (λ e. pure tt) x in (r' ≡ ok tt) × HasState w'.storage k failed
  caught (ok y) x e h = (refl, h)
  caught (err y) x e h = cc

  -- With no other writer at work, a task that is still submitted, and whose log slot holds a log or
  -- nothing, is failed when the broker refuses its operation; nothing is raised.
  pub enqueue_or_fail_refused :
      (op : RunTask)
      → w.broker_accepts ≡ false
      → let (r, w') = enqueue_or_fail k op w in (r ≡ ok tt) × HasState w'.storage k failed
  unfolding enqueue_or_fail run_task try_except
  enqueue_or_fail_refused op refused =
      simp refused (caught _ _ mark_enqueue_failed_quiet.0 mark_enqueue_failed_quiet.1)
