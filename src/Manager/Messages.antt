-- ===== src/Manager/Messages.antt =====
-- task_manager.py: `send_message`, with `_bind_message`, `_is_blocking` and
-- `_extract_inline_push_config`. What the subscribed stream delivers until it ends, or until the
-- blocking wait times out, is an argument; what the others do meanwhile is in the schedule.
pub mod Jobs
pub mod Stream
pub mod Settled
use a2akit.Prelude.{
  ℕ, ℤ, String, Bool, true, not, ◌&&◌, ◌==◌, Option, none, some, List, [], ◌∷◌, if◌then◌else◌,
}
use a2akit.Wire.{
  Task, Message, text, direct_reply, Configuration, SendMessageRequest, FlatPushConfig,
  NestedPushConfig, meta_tenant_key,
}
use a2akit.Errors.{ok}
use a2akit.EventBus
use a2akit.EventBus.{BufferedEvent, buffer_of, iter_events}
use a2akit.Push.Store.{PushConfig, PushStore, set_config, text_or}
use a2akit.Storage.Update.{Update, no_update}
use a2akit.Manager.{submit_task, truthy}
use a2akit.Manager.Send.{find_direct_reply}
use a2akit.Runtime.{
  Act, Background, enqueue_or_fail, ◌>>=◌, ◌>>◌, pure, load, load_trimmed, store, spawn,
}

-- `_is_blocking`
unfoldable pub is_blocking : Option Configuration → Bool
is_blocking none = true
is_blocking (some c) = elim c.return_immediately [ none ↦ true | some b ↦ not b ]

-- [scheme] if scheme else []
abbrev schemes_of : Option String → List String
schemes_of none = []
schemes_of (some s) = if s == "" then [] else s ∷ []

abbrev pub inline_flat : FlatPushConfig → PushConfig
inline_flat c = record {
  id = c.id;
  url = c.url;
  token = c.token;
  authentication = elim c.authentication [
    | none ↦ none
    | some a ↦ some (record { schemes = schemes_of a.0; credentials = a.1 })
  ];
}

abbrev pub inline_nested : NestedPushConfig → PushConfig
inline_nested c = record {
  id = c.id;
  url = c.url;
  token = c.token;
  authentication = elim c.authentication [
    | none ↦ none
    | some a ↦ some (record { schemes = a.0; credentials = a.1 })
  ];
}

-- `_extract_inline_push_config`
unfoldable pub extract_inline_push_config : Option Configuration → Option PushConfig
extract_inline_push_config none = none
extract_inline_push_config (some c) = elim c.flat_push_config [
  | some f ↦ some (inline_flat f)
  | none ↦ elim c.nested_push_config [ some n ↦ some (inline_nested n) | none ↦ none ]
]

-- `_bind_message`
unfoldable pub bind_message : SendMessageRequest → String → String → SendMessageRequest
bind_message p context_id task_id = record p {
  message = record p.message { context_id = some context_id; task_id = some task_id };
}

-- msg.context_id or str(uuid.uuid4())
unfoldable pub open_context : Message → Act String
open_context m w = (ok (text_or m.context_id w.uuid), w)

abbrev tenant_update : String → Update
tenant_update tenant = record no_update { task_metadata = (meta_tenant_key, text tenant) ∷ [] }

-- The tenant of a new task goes into its metadata, by the storage itself.
unfoldable pub tag_tenant : Bool → String → Option String → Act (Unit {0})
tag_tenant wanted task_id tenant =
    if wanted && truthy tenant
    then (do store task_id (tenant_update (text_or tenant "")); pure tt)
    else pure tt

abbrev push_set : Option PushStore → String → PushConfig → String → Option PushStore
push_set none task_id c fresh = none
push_set (some s) task_id c fresh = some (set_config s task_id c fresh).1

-- The inline configuration is stored where there is a store.
unfoldable pub store_inline : String → Option PushConfig → Act (Unit {0})
store_inline task_id none w = (ok tt, w)
store_inline task_id (some c) w =
    (ok tt, record w { push_store = push_set w.push_store task_id c w.uuid })

-- getattr(configuration, "history_length", None)
abbrev pub history_length_of : Option Configuration → Option ℤ
history_length_of none = none
history_length_of (some c) = c.history_length

-- What `send_message` returns: the message of a direct reply, or the task.
pub data Answer : Type 0 where
  replied : Message → Answer
  answered : Task → Answer

abbrev pub task_or : Option Task → Task → Task
task_or none t = t
task_or (some u) t = u

abbrev pub reply_of : Option Task → Option Message
reply_of none = none
reply_of (some t) = find_direct_reply t

abbrev pub trimmed_answer : String → Task → Option ℤ → Act Answer
trimmed_answer task_id t none = pure (answered t)
trimmed_answer task_id t (some n) = do
  trimmed ← load_trimmed task_id n
  pure (answered (task_or trimmed t))

abbrev pub reply_else : Option Message → Act Answer → Act Answer
reply_else (some m) otherwise = pure (replied m)
reply_else none otherwise = otherwise

abbrev pub answer_with : Task → Option ℤ → Option Task → Act Answer
answer_with t n latest = reply_else (reply_of latest) (trimmed_answer t.id (task_or latest t) n)

-- The end of `send_message`, on both of its paths.
unfoldable pub answer : Task → Option ℤ → Act Answer
answer t n = do latest ← load t.id; answer_with t n latest

-- The last direct reply among the events that the wait has seen.
unfoldable pub direct_message : List BufferedEvent → Option Message
direct_message [] = none
direct_message (b ∷ bs) =
    let later = direct_message bs in
    elim later [ some m ↦ some m | none ↦ elim b.event [ direct_reply m ↦ some m | _ ↦ none ] ]

-- `async with self.event_bus.subscribe(task_id)`: the body gets the bookmark and the replay buffer,
-- and the stream is taken off at the end.
unfoldable pub with_subscription :
    {A : Type 0} → String → ℕ → (ℕ → List BufferedEvent → Act A) → Act A
with_subscription task_id stream body w =
    let (bookmark, bus) = EventBus.subscribe w.bus task_id stream in
    let (r, w') = body bookmark (buffer_of bus task_id) (record w { bus = bus }) in
    (r, record w' { bus = EventBus.unsubscribe w'.bus task_id stream })

-- The blocking wait: subscribed, then the job is started, then the events are read.
unfoldable pub wait_for : String → Background → ℕ → List BufferedEvent → Act (Option Message)
wait_for task_id job stream live =
    with_subscription task_id stream (λ bookmark buffer. do
      spawn job
      pure (direct_message (iter_events buffer live none bookmark)))

abbrev pub job_of : SendMessageRequest → String → Task → Bool → Background
job_of p context_id t is_new =
    enqueue_or_fail t.id (record { params = bind_message p context_id t.id; is_new_task = is_new })

abbrev pub start : Bool → Background → Task → Option ℤ → ℕ → List BufferedEvent → Act Answer
start blocking job t n stream live =
    if blocking
    then (do direct ← wait_for t.id job stream live; reply_else direct (answer t n))
    else (do spawn job; answer t n)

-- What `send_message` does with the task that was submitted.
unfoldable pub process :
    SendMessageRequest → String → ℕ → List BufferedEvent → Task × Bool → Act Answer
process p context_id stream live (t, should_enqueue) =
    let is_new = not (truthy p.message.task_id) in
    let n = history_length_of p.configuration in
    do
      tag_tenant (is_new && should_enqueue) t.id p.tenant
      if should_enqueue
          then (do
            store_inline t.id (extract_inline_push_config p.configuration)
            start (is_blocking p.configuration)
                (job_of p (if is_new then context_id else t.context_id) t is_new) t n stream live)
          else answer t n

unfoldable pub send_message : List String → SendMessageRequest → ℕ → List BufferedEvent → Act Answer
send_message input_modes p stream live = do
  context_id ← open_context p.message
  submitted ← submit_task input_modes context_id p.message
  process p context_id stream live submitted
