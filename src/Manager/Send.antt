-- ===== src/Manager/Send.antt =====
-- task_manager.py: `subscribe_task` and `_find_direct_reply`. A generator is the list of what it
-- yields: a snapshot of the task, if any, and events. What the subscribed stream
-- delivers while it is open is a parameter.
use a2akit.Prelude.{
  ℕ, String, true, ◌==◌, ◌≡◌, ◌↔◌, inl, inr, refl, Option, none, some, List, [], ◌∷◌, if◌then◌else◌,
  is_some, Bool-cases,
}
use a2akit.Dict
use a2akit.Wire.{Task, Message, text, direct_reply_key, is_terminal}
use a2akit.Errors.{err, task_not_found, unsupported_operation}
use a2akit.EventBus
use a2akit.EventBus.{BufferedEvent, buffer_of, iter_events}
use a2akit.Runtime.{World, Act, ◌>>=◌, pure, raise, load}

-- for msg in reversed(history): the last message with the identifier
unfoldable pub last_message : String → List Message → Option Message
last_message message_id [] = none
last_message message_id (m ∷ ms) =
    let later = last_message message_id ms in
    if is_some later then later else if m.message_id == message_id then some m else none

-- The marker of a direct reply is a text that is not empty.
unfoldable pub find_direct_reply : Task → Option Message
find_direct_reply t = elim (Dict.get t.metadata direct_reply_key) [
  | some (text s) ↦ if s == "" then none else last_message s t.history
  | _ ↦ none
]

abbrev pub Yield : Type 0
Yield = Option Task × List BufferedEvent

-- What the generator does with the task that it has loaded. `buffer` is the replay buffer, `live`
-- what the stream delivers, `bookmark` what `subscribe` captured.
unfoldable pub subscribed :
    Option (Option ℕ) → List BufferedEvent → List BufferedEvent → ℕ → Option Task → Act Yield
subscribed after buffer live bookmark none = raise task_not_found
subscribed none buffer live bookmark (some t) =
    if is_terminal t.status.state
    then raise unsupported_operation
    else pure (some t, iter_events buffer live none bookmark)
subscribed (some after) buffer live bookmark (some t) =
    if is_terminal t.status.state
    then pure (some t, [])
    else pure (none, iter_events buffer live (some after) bookmark)

-- `subscribe_task`: the stream is registered before the task is loaded, and taken off at the end.
unfoldable pub subscribe_task : String → Option (Option ℕ) → ℕ → List BufferedEvent → Act Yield
subscribe_task task_id after stream live w =
    let (bookmark, bus) = EventBus.subscribe w.bus task_id stream in
    let (r, w'') =
      (load task_id >>= λ t. subscribed after (buffer_of bus task_id) live bookmark t)
        (record w { bus = bus }) in
    (r, record w'' { bus = EventBus.unsubscribe w''.bus task_id stream })

-- The generator refuses exactly on a task that has ended, and only when no last event was named.
pub subscribed_refuses :
    (after : Option (Option ℕ)) (buffer live : List BufferedEvent) (bookmark : ℕ)
    (found : Option Task) (w : World)
    → ((subscribed after buffer live bookmark found w).0 ≡ err unsupported_operation)
      ↔ ((after ≡ none) × (t : Task) × (found ≡ some t) × (is_terminal t.status.state ≡ true))
unfolding subscribed raise pure
subscribed_refuses none buffer live bookmark none w = (λ h. cc, λ (e, t, f, q). cc)
subscribed_refuses (some a) buffer live bookmark none w = (λ h. cc, λ (e, t, f, q). cc)
subscribed_refuses none buffer live bookmark (some t) w =
    elim (Bool-cases (is_terminal t.status.state)) [
      | inl e ↦ (λ h. (refl, t, refl, e), λ q. rw e refl)
      | inr e ↦ (λ h. cc (rw e at h), λ (x, t', f, q). cc)
    ]
subscribed_refuses (some a) buffer live bookmark (some t) w =
    elim (Bool-cases (is_terminal t.status.state)) [
      | inl e ↦ (λ h. cc (rw e at h), λ (x, t', f, q). cc)
      | inr e ↦ (λ h. cc (rw e at h), λ (x, t', f, q). cc)
    ]
