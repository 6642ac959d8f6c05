-- ===== src/Emitter/Accepted.antt =====
-- What the storage holds when the emitter has returned from a write.
use a2akit.Prelude.{ℕ, String, ◌≡◌, refl, ap, ◌⊎◌, inl, inr, none, some, Option, false}
use a2akit.Dict
use a2akit.Wire.{Task, is_terminal}
use a2akit.Errors.{ok, err, Error, Result-cases}
use a2akit.Storage.Update
use a2akit.Storage.Update.{Update}
use a2akit.Storage.Update.Content.{Written}
use a2akit.Storage.Update.Integrity.{update_task-stores, update_task_error_keeps}
use a2akit.Emitter.{update_task, fire_hooks}
use a2akit.Runtime.{World, pause, store, pure, ◌>>=◌}

-- The world that the write found, in which nobody has acted since, the task in it, and the task as it
-- is now.
pub record Landed (k : String) (u : Update) (w' : World) : Type 0 where
  pub at : World
  pub before : Task
  pub now : String
  pub work : Task
  pub found : Dict.get at.storage.tasks k ≡ some before
  pub last : w'.schedule ≡ at.schedule
  pub was_open : (u.state ≡ none) ⊎ (is_terminal before.status.state ≡ false)
  pub stored : Dict.get w'.storage.tasks k ≡ some work
  pub written : Written before u now work

-- A write that returned found the storage as the others had left it.
pub update_task-found :
    (k : String) (u : Update) (w : World) {v : ℕ}
    → (update_task k u w).0 ≡ ok v
    → (l : Landed k u (update_task k u w).1) × (l.at ≡ pause w)
unfolding update_task fire_hooks store pure ◌>>=◌
update_task-found k u w {v} h =
    go (Result-cases (Update.update_task (pause w).storage k u (pause w).now).0)
  where
    go :
        ((e : Error) × ((Update.update_task (pause w).storage k u (pause w).now).0 ≡ err e))
          ⊎ ((v' : ℕ) × ((Update.update_task (pause w).storage k u (pause w).now).0 ≡ ok v'))
        → (l : Landed k u (update_task k u w).1) × (l.at ≡ pause w)
    go (inl (e, p)) = cc (rw p at h)
    go (inr (v', p)) =
        let (t, work, found, free, kept, written) =
          update_task-stores (pause w).storage k u (pause w).now p in
        rw p (
          record {
            at = pause w;
            before = t;
            now = (pause w).now;
            work = work;
            found = found;
            last = refl;
            was_open = free;
            stored = kept;
            written = written;
          },
          refl,
        )

pub update_task-Landed :
    (k : String) (u : Update) (w : World) {v : ℕ}
    → (update_task k u w).0 ≡ ok v
    → Landed k u (update_task k u w).1
update_task-Landed k u w h = (update_task-found k u w h).0

-- A write that raised left everything as the others had.
pub update_task-refused :
    (k : String) (u : Update) (w : World) {e : Error}
    → (update_task k u w).0 ≡ err e
    → (update_task k u w).1 ≡ pause w
unfolding update_task fire_hooks store pure ◌>>=◌
update_task-refused k u w {e} h =
    go (Result-cases (Update.update_task (pause w).storage k u (pause w).now).0)
  where
    go :
        ((x : Error) × ((Update.update_task (pause w).storage k u (pause w).now).0 ≡ err x))
          ⊎ ((v : ℕ) × ((Update.update_task (pause w).storage k u (pause w).now).0 ≡ ok v))
        → (update_task k u w).1 ≡ pause w
    go (inl (x, p)) =
        let kept = update_task_error_keeps (pause w).storage k u (pause w).now p in
        rw p (ap (λ st. record (pause w) { storage = st }) kept)
    go (inr (v, p)) = cc (rw p at h)

-- The expected version of a write that landed is of no further account.
pub any_version :
    (k : String) (u : Update) (a : Option ℕ) (w : World)
    → (l : Landed k (record u { expected_version = a }) w) → (m : Landed k u w) × (m.at ≡ l.at)
any_version k u a w l = (
  record {
    at = l.at;
    before = l.before;
    now = l.now;
    work = l.work;
    found = l.found;
    last = l.last;
    was_open = l.was_open;
    stored = l.stored;
    written = record {
      same_id = l.written.same_id;
      same_context = l.written.same_context;
      state = l.written.state;
      history = l.written.history;
      artifacts = l.written.artifacts;
      logged = l.written.logged;
    };
  },
  refl,
)
