-- ===== src/Push/Trigger.antt =====
-- push/emitter.py: `PushDeliveryEmitter.update_task`, over the emitter of Emitter.antt and the
-- delivery service of Push/Service. The storage that it loads from is the emitter's own.
use a2akit.Prelude.{ℕ, String, ◌≡◌, refl, ◌⊎◌, inl, inr, Option, none, some, List, []}
use a2akit.Wire.{Task, TaskState}
use a2akit.Errors.{Error, Result, ok, err}
use a2akit.Storage.Update.{Update}
use a2akit.Emitter
use a2akit.Runtime.{World, load}
use a2akit.Push.Store.{PushStore, TaskPushConfig, list_configs}
use a2akit.Push.Service.{Workers, deliver}

-- `get_configs_for_delivery`
abbrev pub configs_for : Option PushStore → String → List TaskPushConfig
configs_for none task_id = []
configs_for (some s) task_id = list_configs s task_id

abbrev pub snapshot_of : Result (Option Task) → Option Task
snapshot_of (err e) = none
snapshot_of (ok found) = found

abbrev deliver_found : ℕ → Workers → List TaskPushConfig → Option Task → Workers
deliver_found m ws configs none = ws
deliver_found m ws configs (some t) = deliver m ws configs t

-- The trigger after a write: none where no state is set; what it raises is swallowed.
unfoldable pub trigger : ℕ → String → Option TaskState → World → Workers → World × Workers
trigger m k none w ws = (w, ws)
trigger m k (some s) w ws =
    let (found, w') = load k w in
    (w', deliver_found m ws (configs_for w'.push_store k) (snapshot_of found))

abbrev after_write : ℕ → String → Update → Workers → Result ℕ × World → Result ℕ × World × Workers
after_write m k u ws (err e, w) = (err e, w, ws)
after_write m k u ws (ok v, w) = let (w', ws') = trigger m k u.state w ws in (ok v, w', ws')

unfoldable pub update_task : ℕ → String → Update → World → Workers → Result ℕ × World × Workers
update_task m k u w ws = after_write m k u ws (Emitter.update_task k u w)

-- The result is that of the write: no delivery changes it. A write that raises, or that sets no
-- state, triggers none.
update_task_result :
    (m : ℕ) (k : String) (u : Update) (w : World) (ws : Workers)
    → ((update_task m k u w ws).0 ≡ (Emitter.update_task k u w).0)
      × ((((e : Error) × ((Emitter.update_task k u w).0 ≡ err e)) ⊎ (u.state ≡ none))
          → (update_task m k u w ws).2 ≡ ws)
unfolding update_task trigger
update_task_result m k u w ws = (same (Emitter.update_task k u w), kept (Emitter.update_task k u w))
  where
    same : (out : Result ℕ × World) → (after_write m k u ws out).0 ≡ out.0
    same (err e, w') = refl
    same (ok v, w') = refl

    kept :
        (out : Result ℕ × World)
        → (((e : Error) × (out.0 ≡ err e)) ⊎ (u.state ≡ none))
        → (after_write m k u ws out).2 ≡ ws
    kept (err e, w') h = refl
    kept (ok v, w') (inl (e, h)) = cc
    kept (ok v, w') (inr h) = rw (h, trigger) refl
