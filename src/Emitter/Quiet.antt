-- ===== src/Emitter/Quiet.antt =====
-- The effect of one write through the emitter when no one else is at work.
use a2akit.Prelude.{ℕ, String, ◌≡◌, refl, [], ◌++◌}
use a2akit.Errors.{ok}
use a2akit.Storage.Update
use a2akit.Storage.Update.{Update, version_of}
use a2akit.Storage.Update.Accept.{Admissible, update_task_accepts}
use a2akit.Emitter.{update_task, fire_hooks, hooks_of}
use a2akit.Runtime.{World, ◌>>=◌, store, pure}
use a2akit.Runtime.Quiet.{pause_quiet}

abbrev pub after_update : World → String → Update → World
after_update w k u = record w {
  storage = (Update.update_task w.storage k u w.now).1;
  hook_calls = w.hook_calls ++ hooks_of w.hooks k u.state u.status_message;
}

pub update_task_quiet :
    (w : World) (k : String) (u : Update)
    → w.schedule ≡ []
    → Admissible w.storage k u
    → (v : ℕ) × (update_task k u w ≡ (ok v, after_update w k u))
unfolding update_task fire_hooks store ◌>>=◌ pure
update_task_quiet w k u quiet a =
    let (v, accepted) = (update_task_accepts w.storage k u w.now).1 a in
    (v, rw (pause_quiet w quiet) (rw accepted refl))
