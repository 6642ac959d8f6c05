-- ===== src/Runtime.antt =====
-- The process that the coroutines run in: the storage, the event bus and the hooks that they share,
-- and what other writers do meanwhile. Each call of the storage is an `await`, so other writers may
-- act before it: `schedule` lists what they do, one turn for each call, with the clock's reading
-- and the uuid that the code gets there. The storage is that of storage/memory.py; a database
-- backend promises the same of each call, and a switch between any two.
pub mod Steady
pub mod Settled
pub mod Quiet
pub mod Jobs
pub mod Outcomes
use a2akit.Prelude.{
  ℤ, ℕ, String, Bool, true, Option, none, some, List, [], ◌∷◌, ◌++◌, if◌then◌else◌,
}
use a2akit.Dict.{Dict}
use a2akit.Wire.{Task, StreamEvent, TaskState, Message, SendMessageRequest}
use a2akit.Push.Store.{PushStore}
use a2akit.Errors.{Result, ok, err, Error, other_error}
use a2akit.Storage.{Storage, load_task, create_task}
use a2akit.Storage.Delete.{delete_task}
use a2akit.Storage.Update.{Update}
use a2akit.Storage.Update
use a2akit.EventBus
use a2akit.EventBus.{EventBus, SendOutcome}

-- Another writer's call of the storage.
pub data Rival : Type 0 where
  writes : String → Update → Rival
  creates : String → Message → Option String → String → Rival
  deletes : String → Rival

-- What the others do before one call of the storage, and what the code reads there.
pub record Turn : Type 0 where
  pub rivals : List Rival
  pub now : String
  pub uuid : String
  pub clock : ℕ

-- A call of a lifecycle hook (hooks.py).
pub data HookCall : Type 0 where
  state_change : String → TaskState → Option Message → HookCall
  working_hook : String → HookCall
  turn_end : String → TaskState → Option Message → HookCall
  terminal : String → TaskState → Option Message → HookCall

-- `LifecycleHooks`: which of the callbacks are set.
pub record Hooks : Type 0 where
  pub on_state_change : Bool
  pub on_working : Bool
  pub on_turn_end : Bool
  pub on_terminal : Bool

-- An operation that the broker was handed (broker/base.py: `_RunTask`).
pub record RunTask : Type 0 where
  pub params : SendMessageRequest
  pub is_new_task : Bool

-- A coroutine that `_track_background` started; it runs by itself later.
pub data Background : Type 0 where
  enqueue_or_fail : String → RunTask → Background
  force_cancel_after : String → Background

pub record World : Type 0 where
  pub storage : Storage
  pub bus : EventBus
  pub streams : ℕ → SendOutcome
  pub hooks : Hooks
  pub hook_calls : List HookCall
  pub published : List (String × StreamEvent)
  pub cancel_events : Dict Bool
  pub push_store : Option PushStore
  pub broker_accepts : Bool
  pub operations : List RunTask
  pub background : List Background
  pub now : String
  pub uuid : String
  pub clock : ℕ
  pub schedule : List Turn

unfoldable pub act_rival : World → Rival → World
act_rival w (writes k u) = record w { storage = (Update.update_task w.storage k u w.now).1 }
act_rival w (creates context_id m key fresh) = record w {
  storage = (create_task w.storage context_id m key w.now fresh).1;
}
act_rival w (deletes k) = record w { storage = (delete_task w.storage none k).1 }

unfoldable pub act_rivals : World → List Rival → World
act_rivals w [] = w
act_rivals w (r ∷ rs) = act_rivals (act_rival w r) rs

run_turn : World → List Turn → World
unfolding act_rivals
run_turn w [] = w
run_turn w (t ∷ rest) =
    act_rivals (record w { now = t.now; uuid = t.uuid; clock = t.clock; schedule = rest }) t.rivals

-- Let the others run.
unfoldable pub pause : World → World
unfolding run_turn
pause w = run_turn w w.schedule

-- A coroutine, run to its end: its result or its exception, and the world that it leaves.
abbrev pub Act : Type 0 → Type 0
Act A = World → Result A × World

module _ {A B : Type 0} where
  abbrev pub resume : Result A → (A → Act B) → Act B
  resume (ok a) f w = f a w
  resume (err e) f w = (err e, w)

  infixl 5 ◌>>=◌ ◌>>◌
  unfoldable pub ◌>>=◌ : Act A → (A → Act B) → Act B
  ◌>>=◌ m f w = let (r, w') = m w in resume r f w'

  abbrev pub ◌>>◌ : Act A → Act B → Act B
  m >> n = m >>= λ _. n

module _ {A : Type 0} where
  unfoldable pub pure : A → Act A
  pure a w = (ok a, w)

  unfoldable pub raise : Error → Act A
  raise e w = (err e, w)

  abbrev pub handle : Result A → (Error → Act A) → Act A
  handle (ok a) h w = (ok a, w)
  handle (err e) h w = h e w

  -- try: m except e: h e
  unfoldable pub try_except : Act A → (Error → Act A) → Act A
  try_except m h w = let (r, w') = m w in handle r h w'

-- await storage.get_version(k)
unfoldable pub get_version : String → Act (Option ℕ)
get_version k w = let w' = pause w in (ok (Update.get_version w'.storage k), w')

-- await storage.load_task(k)
unfoldable pub load : String → Act (Option Task)
load k w = let w' = pause w in (ok (load_task w'.storage k none true), w')

-- await storage.load_task(k, history_length=n)
unfoldable pub load_trimmed : String → ℤ → Act (Option Task)
load_trimmed k n w = let w' = pause w in (ok (load_task w'.storage k (some n) true), w')

-- await storage.update_task(k, ...)
unfoldable pub store : String → Update → Act ℕ
store k u w =
    let w' = pause w in
    let (r, st) = Update.update_task w'.storage k u w'.now in (r, record w' { storage = st })

-- await storage.create_task(c, m, idempotency_key=key)
unfoldable pub create : String → Message → Option String → Act Task
create c m key w =
    let w' = pause w in
    let (t, st) = create_task w'.storage c m key w'.now w'.uuid in
    (ok t, record w' { storage = st })

-- await broker.run_task(...): whether the broker's queue takes the operation is given.
unfoldable pub run_task : RunTask → Act (Unit {0})
run_task op w =
    if w.broker_accepts
    then (ok tt, record w { operations = w.operations ++ op ∷ [] })
    else (err other_error, w)

-- self._track_background(...)
unfoldable pub spawn : Background → Act (Unit {0})
spawn b w = (ok tt, record w { background = w.background ++ b ∷ [] })
