-- ===== src/Http/RestV03.antt =====
-- endpoints.py: the routes of the REST binding of v0.3, from the parameters that FastAPI has parsed
-- to the response; the body of a message is given as converted to v1.0. Whether a result can be
-- converted to v0.3 is an argument, `convertible`: `convert_to_v03` raises where it cannot.
pub mod Settled
use a2akit.Prelude.{
  ℕ, ℤ, String, Bool, true, not, ◌&&◌, Option, none, some, List, [], ◌∷◌, map, if◌then◌else◌,
}
use a2akit.Wire.{Task, StreamEvent, snapshot, SendMessageRequest, TaskState}
use a2akit.Errors.{Error, other_error, unsupported_operation}
use a2akit.EventBus.{BufferedEvent, is_stream_terminal}
use a2akit.Middleware.{HttpRequest}
use a2akit.Manager.Messages.{Answer}
use a2akit.Manager.Cancellation.{cancel_task}
use a2akit.Manager.Send.{subscribe_task}
use a2akit.Push.Delivery.{sanitized}
use a2akit.Storage.Listing.{ListTasksResult}
use a2akit.Runtime.{Act, ◌>>=◌, ◌>>◌, pure, raise, try_except}
use a2akit.Http.Json.{Json}
use a2akit.Http.Envelope.{Begun, begin, finish, ended_with}
use a2akit.Http.Frames.{task_payload, Frame, is_direct_reply}
use a2akit.Http.Service.{
  Service, wrapped, tasks_result, push_config_result, push_configs_result, health_result,
  null_result,
}
use a2akit.Http.V10.Bodies.{valid_query, pushes, streams}
use a2akit.Http.V03.Bodies.{wire_object, envelope_of, answer_event}
use a2akit.Http.Rest.Bodies.{
  RestResponse, json_response, http_exception, event_stream, ListParams, raw_params, number_json,
  has_store, parsed_body, card_answer,
}
use a2akit.Http.Actions.{
  Opened, lacks_message_id, deliver, deliver_stream, opened, pass_or_roll_back, open_yield,
  last_event_id, get_task, list_all, set_push_config, get_push_config, list_push_configs,
  delete_push_config,
}

-- An HTTPException of v0.3 has a numeric code, held as its text.
abbrev pub refuse : ℕ → String → String → Act RestResponse
refuse status code said = pure (http_exception status code said)

abbrev pub card_from : HttpRequest → Option (HttpRequest → Option String) → Act RestResponse
card_from q none = refuse 404 "-32007" "Authenticated Extended Card not configured"
card_from q (some provider) = card_answer (provider q)

module _ (s : Service) (convertible : StreamEvent → Bool) where
  -- The generators: an event that cannot be converted ends the stream.
  unfoldable pub later_frames : List BufferedEvent → List Frame
  later_frames [] = []
  later_frames (b ∷ bs) =
      let rest = later_frames bs in
      if is_direct_reply b.event
      then rest
      else if convertible b.event
      then (some b.id, wire_object b.event) ∷ (if is_stream_terminal b.event then [] else rest)
      else []

  unfoldable pub event_frames : Opened → List Frame
  event_frames o =
      if convertible o.first then (o.event_id, wire_object o.first) ∷ later_frames o.later else []

  -- `_get_tm`, before the rest of a handler
  abbrev pub with_tm : Act RestResponse → Act RestResponse
  with_tm m = if s.has_task_manager then m else refuse 503 "-32603" "TaskManager not initialized"

  -- convert_to_v03(result_v10), and then the loop over the middleware
  abbrev pub converted : Begun → Answer → Act RestResponse
  converted begun result =
      if convertible (answer_event result)
      then ended_with (finish begun.envelope (some result) begun.started)
          (pure (json_response (wrapped (wire_object (answer_event result)))))
      else raise other_error

  abbrev pub run_sent : Begun → Option Error → Act RestResponse
  run_sent begun (some e) = pass_or_roll_back begun e
  run_sent begun none = do
    result ← try_except (deliver s begun.envelope.params) (pass_or_roll_back begun)
    converted begun result

  -- `_validate_ids`, before the rest of a handler
  abbrev pub validate_ids : SendMessageRequest → Act RestResponse → Act RestResponse
  validate_ids p m =
      if lacks_message_id s p then refuse 400 "-32600" "messageId is required." else m

  unfoldable pub message_send : HttpRequest → SendMessageRequest → Act RestResponse
  message_send q p =
      let begun = begin q (envelope_of (some p)) [] s.middlewares in
      validate_ids p (with_tm (run_sent begun begun.raised))

  abbrev pub check_streaming : Act RestResponse → Act RestResponse
  check_streaming m = if streams s.capabilities then m else raise unsupported_operation

  -- `_stream_setup`, and `message_stream` on what it yields
  unfoldable pub message_stream : HttpRequest → SendMessageRequest → Act RestResponse
  message_stream q p =
      let begun = begin q (envelope_of (some p)) [] s.middlewares in
      check_streaming (
        validate_ids p (
          with_tm (do
            o ← opened begun (deliver_stream s begun.envelope.params) begun.raised
            pure (event_stream (event_frames o) (finish begun.envelope none begun.started)))))

  abbrev pub task_response : Task → Act RestResponse
  task_response t =
      if convertible (snapshot t)
      then pure (json_response (wrapped (task_payload (sanitized t))))
      else raise other_error

  abbrev pub got_task : Option Task → Act RestResponse
  got_task none = refuse 404 "-32001" "Task not found"
  got_task (some t) = task_response t

  unfoldable pub tasks_get : String → Option ℤ → Act RestResponse
  tasks_get k n = with_tm (do t ← get_task s (number_json n) k; got_task t)

  abbrev pub all_convertible : List Task → Bool
  all_convertible [] = true
  all_convertible (t ∷ ts) = convertible (snapshot t) && all_convertible ts

  abbrev pub listed : ListTasksResult → Act RestResponse
  listed result =
      if all_convertible result.tasks
      then pure
          (json_response (tasks_result (record result { tasks = map sanitized result.tasks })))
      else raise other_error

  -- The state was parsed by FastAPI, and `p.status` is not read.
  unfoldable pub tasks_list : ListParams → Option TaskState → Act RestResponse
  tasks_list p state = with_tm (do
    query ← valid_query (s.validators.list_query (raw_params (record p { tenant = none }) state))
    result ← list_all s query
    listed result)

  unfoldable pub tasks_cancel : String → Act RestResponse
  tasks_cancel k = with_tm (do t ← cancel_task k; task_response t)

  -- `_subscribe_setup`, and `tasks_subscribe` on what it yields
  unfoldable pub tasks_subscribe : HttpRequest → String → Act RestResponse
  tasks_subscribe q k = check_streaming (
      with_tm (do
        y ← subscribe_task k (last_event_id s q) s.stream s.live
        o ← open_yield y
        pure (event_stream (event_frames o) none)))

  -- `_check_push_supported` and `_get_push_store`, before the rest of a handler
  unfoldable pub with_push : Act RestResponse → Act RestResponse
  with_push m w =
      (if pushes s.capabilities
          then (if has_store w.push_store
              then m
              else refuse 501 "-32003" "Push notifications are not configured")
          else refuse 501 "-32003" "Push notifications are not supported")
        w

  unfoldable pub push_config_set : String → Option Json → Act RestResponse
  push_config_set k body = with_push (do
    config ← parsed_body body
    bound ← set_push_config s (s.validators.push_config config) k
    pure (json_response (push_config_result bound)))

  unfoldable pub push_config_get_by_id : String → String → Act RestResponse
  push_config_get_by_id k config_id = with_push (do
    found ← get_push_config (some config_id) k
    pure (json_response (push_config_result found)))

  unfoldable pub push_config_list : String → Act RestResponse
  push_config_list k =
      with_push
        (do configs ← list_push_configs k; pure (json_response (push_configs_result configs)))

  unfoldable pub push_config_delete : String → String → Act RestResponse
  push_config_delete k config_id =
      with_push (do deleted ← delete_push_config config_id k; pure (json_response null_result))

-- A request, by its route.
pub data Route : Type 0 where
  post_message : SendMessageRequest → Route
  post_stream : SendMessageRequest → Route
  get_one : String → Option ℤ → Route
  get_list : ListParams → Option TaskState → Route
  post_cancel : String → Route
  post_subscribe : String → Route
  set_config : String → Option Json → Route
  get_config : String → String → Route
  list_configs : String → Route
  delete_config : String → String → Route
  get_card get_health : Route

-- `build_a2a_router`
unfoldable pub serve : Service → (StreamEvent → Bool) → HttpRequest → Route → Act RestResponse
serve s c q (post_message p) = message_send s c q p
serve s c q (post_stream p) = message_stream s c q p
serve s c q (get_one k n) = tasks_get s c k n
serve s c q (get_list p state) = tasks_list s c p state
serve s c q (post_cancel k) = tasks_cancel s c k
serve s c q (post_subscribe k) = tasks_subscribe s c q k
serve s c q (set_config k body) = push_config_set s c k body
serve s c q (get_config k config_id) = push_config_get_by_id s c k config_id
serve s c q (list_configs k) = push_config_list s c k
serve s c q (delete_config k config_id) = push_config_delete s c k config_id
serve s c q get_card = card_from q s.extended_card_provider
serve s c q get_health = pure (json_response health_result)
