-- ===== src/Emitter.antt =====
-- event_emitter.py and hooks.py: `DefaultEventEmitter` behind `HookableEmitter`. With no hook set
-- the second passes every call through. A hook is the user's code: the model records its call, and
-- its exceptions are swallowed by `_safe_call`.
pub mod Settled
pub mod Quiet
pub mod Accepted
use a2akit.Prelude.{
  ℕ, String, Bool, true, false, Option, none, some, List, [], ◌∷◌, ◌++◌, if◌then◌else◌, ◌&&◌,
}
use a2akit.Wire.{TaskState, working, Message, StreamEvent, is_terminal, is_turn_end}
use a2akit.Errors.{ok}
use a2akit.Storage.Update.{Update}
use a2akit.EventBus
use a2akit.Runtime.{
  Act, Hooks, HookCall, state_change, working_hook, turn_end, terminal, ◌>>=◌, ◌>>◌, pure, store,
}

abbrev is_working : TaskState → Bool
is_working working = true
is_working _ = false

-- The second hook of an update: at most one, by the state.
abbrev pub state_hook : Hooks → String → TaskState → Option Message → List HookCall
state_hook h k s m =
    if is_terminal s && h.on_terminal
    then terminal k s m ∷ []
    else if is_working s && h.on_working
    then working_hook k ∷ []
    else if is_turn_end s && h.on_turn_end
    then turn_end k s m ∷ []
    else []

unfoldable pub hooks_of : Hooks → String → Option TaskState → Option Message → List HookCall
hooks_of h k none m = []
hooks_of h k (some s) m =
    (if h.on_state_change then state_change k s m ∷ [] else []) ++ state_hook h k s m

unfoldable pub fire_hooks : String → Option TaskState → Option Message → Act (Unit {0})
fire_hooks k s m w = (ok tt, record w { hook_calls = w.hook_calls ++ hooks_of w.hooks k s m })

-- HookableEmitter.update_task over DefaultEventEmitter.update_task
unfoldable pub update_task : String → Update → Act ℕ
update_task k u = do v ← store k u; fire_hooks k u.state u.status_message; pure v

-- send_event: a failed publication is logged and swallowed, and the in-memory bus has none.
unfoldable pub send_event : String → StreamEvent → Act (Unit {0})
send_event k e w = (
  ok tt,
  record w {
    bus = (EventBus.publish w.bus k e w.clock w.streams).2;
    published = w.published ++ (k, e) ∷ [];
  },
)
