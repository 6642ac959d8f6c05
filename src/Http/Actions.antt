-- ===== src/Http/Actions.antt =====
-- What the handlers of both JSON-RPC bindings do with the task manager, the push store and the
-- middleware, between the checks of their parameters and the shape of their answer.
pub mod Settled
use a2akit.Prelude.{
  ℕ, ℤ, pos, String, Bool, true, false, ◌||◌, ◌==◌, Option, none, some, List, [], ◌∷◌,
  if◌then◌else◌,
}
use a2akit.Wire.{Task, StreamEvent, snapshot, SendMessageRequest}
use a2akit.Errors.{
  Error, Result, ok, err, runtime_error, attribute_error, other_error, is_cancellation,
}
use a2akit.EventBus.{BufferedEvent}
use a2akit.Storage.Listing.{ListTasksQuery, ListTasksResult, list_tasks}
use a2akit.Push.Store.{PushConfig, PushStore, TaskPushConfig}
use a2akit.Push.Handlers.{
  vetted_config, require_task, handle_set_config, handle_get_config, handle_list_configs,
  handle_delete_config,
}
use a2akit.Middleware.{HttpRequest}
use a2akit.Manager.Messages.{Answer, send_message}
use a2akit.Manager.Messages.Stream.{Stream, stream_message}
use a2akit.Manager.Send.{Yield, subscribe_task}
use a2akit.Runtime.{World, Act, ◌>>=◌, ◌>>◌, pure, raise, try_except, load, load_trimmed, pause}
use a2akit.Http.Json.{Json, null, boolean, number, string}
use a2akit.Http.Envelope.{RequestEnvelope, Begun, begin, finish, ended_with, roll_back}
use a2akit.Http.Service.{Service, Response, streamed}
use a2akit.Http.Frames.{Frame}

-- The events of a stream that is open: the first one, and those that follow.
pub record Opened : Type 0 where
  pub event_id : Option ℕ
  pub first : StreamEvent
  pub later : List BufferedEvent

-- `StopAsyncIteration` of `anext` on a generator that yields nothing is an `Exception`.
abbrev pub open_events : List BufferedEvent → Act Opened
open_events [] = raise other_error
open_events (b ∷ bs) = pure (record { event_id = some b.id; first = b.event; later = bs })

abbrev pub snapshot_first : Task → List BufferedEvent → Opened
snapshot_first t bs = record { event_id = none; first = snapshot t; later = bs }

abbrev pub open_yield : Yield → Act Opened
open_yield (none, bs) = open_events bs
open_yield (some t, bs) = pure (snapshot_first t bs)

abbrev pub open_stream : Stream → Act Opened
open_stream (t, bs) = pure (snapshot_first t bs)

-- The answer of a handler that has opened a stream, with the frames that `render` makes of it: the
-- generator runs to its end, and then the last loop over the middleware.
abbrev pub stream_answer : (Opened → List Frame) → Json → Begun → Opened → Response
stream_answer render req_id begun o =
    streamed req_id (render o) (finish begun.envelope none begun.started)

-- The `try` of a streaming handler, which rolls back on any exception, a cancellation too.
unfoldable pub opened : Begun → Act Opened → Option Error → Act Opened
opened begun m none = try_except m (roll_back begun)
opened begun m (some e) = roll_back begun e

-- The body of the `try` of `message/send`, which lets a cancellation pass.
abbrev pub pass_or_roll_back : {A : Type 0} → Begun → Error → Act A
pass_or_roll_back begun e = if is_cancellation e then raise e else roll_back begun e

unfoldable pub run_sent : Begun → Act Answer → Option Error → Act Answer
run_sent begun m (some e) = pass_or_roll_back begun e
run_sent begun m none = do
  result ← try_except m (pass_or_roll_back begun)
  ended_with (finish begun.envelope (some result) begun.started) (pure result)

abbrev length_of : Bool → ℤ
length_of true = pos 1
length_of false = pos 0

abbrev blank : String → Bool
blank s = s == ""

-- What the checks let through meets a store that is `None`.
abbrev no_attribute : {A B : Type 0} → Result A → Result B
no_attribute (err e) = err e
no_attribute (ok a) = err attribute_error

module _ (s : Service) where
  -- `_get_tm`
  unfoldable pub get_tm : Act (Unit {0})
  get_tm = if s.has_task_manager then pure tt else raise runtime_error

  -- not msg.message_id or not msg.message_id.strip()
  unfoldable pub lacks_message_id : SendMessageRequest → Bool
  lacks_message_id p = blank p.message.message_id || blank (s.texts.strip p.message.message_id)

  -- `assert envelope.params is not None`, then the call
  abbrev pub deliver : Option SendMessageRequest → Act Answer
  deliver none = raise other_error
  deliver (some p) = send_message s.input_modes p s.stream s.live

  abbrev pub deliver_stream : Option SendMessageRequest → Act Opened
  deliver_stream none = raise other_error
  deliver_stream (some p) = stream_message s.input_modes p s.stream s.live >>= open_stream

  -- From `_get_tm` to the last loop over the middleware of `message/send`.
  unfoldable pub sent : HttpRequest → RequestEnvelope → Act Answer
  sent q env = do
    get_tm
    let begun = begin q env [] s.middlewares
    run_sent begun (deliver begun.envelope.params) begun.raised

  unfoldable pub sent_stream :
      (Opened → List Frame) → HttpRequest → Json → RequestEnvelope → Act Response
  sent_stream render q req_id env = do
    get_tm
    let begun = begin q env [] s.middlewares
    o ← opened begun (deliver_stream begun.envelope.params) begun.raised
    pure (stream_answer render req_id begun o)

  -- The call with an id that is given as any JSON value. One that is no text is refused by what it
  -- reaches, as a database does; a dictionary in memory finds nothing under a number.
  unfoldable pub with_id : {A : Type 0} → Json → (String → Act A) → Act A
  with_id (string k) f = f k
  with_id j f = raise (s.texts.rejects j)

  abbrev pub last_event_id : HttpRequest → Option (Option ℕ)
  last_event_id q = elim (q.header "Last-Event-ID") [
    | none ↦ none
    | some text ↦ some (s.texts.event_number text)
  ]

  abbrev pub subscribe : HttpRequest → Json → Act Opened
  subscribe q task_id = do
    get_tm
    with_id task_id (λ k. do y ← subscribe_task k (last_event_id q) s.stream s.live; open_yield y)

  unfoldable pub subscribed :
      (Opened → List Frame) → HttpRequest → Json → RequestEnvelope → Json → Act Response
  subscribed render q req_id env task_id = do
    let begun = begin q env [] s.middlewares
    o ← opened begun (subscribe q task_id) begun.raised
    pure (stream_answer render req_id begun o)

  abbrev pub refused_length : Json → Option Task → Act (Option Task)
  refused_length j none = pure none
  refused_length j (some t) = raise (s.texts.rejects j)

  -- `TaskManager.get_task`, with a history length that is given as any JSON value
  unfoldable pub get_task : Json → String → Act (Option Task)
  get_task null k = load k
  get_task (number n) k = load_trimmed k n
  get_task (boolean b) k = load_trimmed k (length_of b)
  get_task j k = do t ← load k; refused_length j t

  -- `TaskManager.list_tasks`
  unfoldable pub list_all : ListTasksQuery → Act ListTasksResult
  list_all query w =
      let w' = pause w in (ok (list_tasks s.texts.int s.texts.str_int w'.storage query), w')

  -- The push handlers, on the storage and the store of the world. Where no store is set, the task
  -- is looked up, and then an attribute of `None` is asked for.
  abbrev pub set_in :
      World → String → Option PushConfig → Option PushStore → Result TaskPushConfig × World
  set_in w task_id body none =
      (no_attribute (vetted_config s.network s.url_policy w.storage task_id body), w)
  set_in w task_id body (some store) =
      let (r, after) =
        handle_set_config s.network s.url_policy w.storage store task_id body w.uuid in
      (r, record w { push_store = some after })

  unfoldable pub set_push_config : Option PushConfig → String → Act TaskPushConfig
  set_push_config body task_id w = let w' = pause w in set_in w' task_id body w'.push_store

-- The calls of the other three, on the world's storage.
abbrev get_in : World → String → Option String → Option PushStore → Result TaskPushConfig
get_in w task_id config_id none = no_attribute (require_task w.storage task_id)
get_in w task_id config_id (some store) = handle_get_config w.storage store task_id config_id

unfoldable pub get_push_config : Option String → String → Act TaskPushConfig
get_push_config config_id task_id w =
    let w' = pause w in (get_in w' task_id config_id w'.push_store, w')

abbrev list_in : World → String → Option PushStore → Result (List TaskPushConfig)
list_in w task_id none = no_attribute (require_task w.storage task_id)
list_in w task_id (some store) = handle_list_configs w.storage store task_id

unfoldable pub list_push_configs : String → Act (List TaskPushConfig)
list_push_configs task_id w = let w' = pause w in (list_in w' task_id w'.push_store, w')

abbrev pub delete_in : World → String → String → Option PushStore → Result Bool × World
delete_in w task_id config_id none = (no_attribute (require_task w.storage task_id), w)
delete_in w task_id config_id (some store) =
    let (r, after) = handle_delete_config w.storage store task_id config_id in
    (r, record w { push_store = some after })

unfoldable pub delete_push_config : String → String → Act Bool
delete_push_config config_id task_id w =
    let w' = pause w in delete_in w' task_id config_id w'.push_store
