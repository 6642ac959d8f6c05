-- ===== src/Http/Rest.antt =====
-- endpoints_v10.py: the routes of the REST binding of v1.0, from the parameters that FastAPI has
-- parsed to the response. The pipeline around them is that of Middleware; an exception of the
-- package leaves the handler, and `_on_framework` answers it.
pub mod Agrees
pub mod Bodies
pub mod Message
pub mod Settled
use Prim.Native.String.{◌++◌ as ◌&◌}
use a2akit.Prelude.{ℤ, String, not, Option, none, some, [], if◌then◌else◌}
use a2akit.Wire.{SendMessageRequest, TaskState}
use a2akit.Errors.{unsupported_operation}
use a2akit.Middleware.{HttpRequest}
use a2akit.Manager.Cancellation.{cancel_task}
use a2akit.Manager.Send.{subscribe_task}
use a2akit.Runtime.{Act, ◌>>=◌, ◌>>◌, pure, raise}
use a2akit.Http.Json.{Json, string}
use a2akit.Http.Catalog.{validation_error}
use a2akit.Http.Envelope.{begin, finish}
use a2akit.Http.Frames.{sanitize_task_v10}
use a2akit.Http.Service.{
  Service, bare_task, tasks_result, push_config_result, push_configs_result, health_result,
}
use a2akit.Http.Rest.Message.{message_response, run_message}
use a2akit.Http.V10.Bodies.{send_envelope, v10_frames, valid_query, sanitized_list, pushes, streams}
use a2akit.Http.Actions.{
  lacks_message_id, deliver_stream, opened, open_yield, last_event_id, get_task, list_all,
  set_push_config, get_push_config, list_push_configs, delete_push_config,
}
use a2akit.Http.Rest.Bodies.{
  RestResponse, json_response, build_error, http_exception, event_stream, no_body, ListParams,
  bad_request, number_json, raw_params, got_task, card_from, parsed_body, has_store,
}

module _ (s : Service) where
  -- `_get_tm`, before the rest of a handler
  abbrev pub with_tm : Act RestResponse → Act RestResponse
  with_tm m =
      if s.has_task_manager
      then m
      else pure (http_exception 503 "UNAVAILABLE" "TaskManager not initialized")

  unfoldable pub message_send : HttpRequest → SendMessageRequest → Act RestResponse
  message_send q p =
      if lacks_message_id s p
      then pure (build_error (bad_request validation_error "messageId is required" []))
      else with_tm (do result ← run_message s q p; pure (message_response result))

  -- `_check_streaming`, before the rest of a handler
  abbrev pub check_streaming : Act RestResponse → Act RestResponse
  check_streaming m = if streams s.capabilities then m else raise unsupported_operation

  -- `_stream_setup_v10`, and `message_stream` on what it yields
  unfoldable pub message_stream : HttpRequest → SendMessageRequest → Act RestResponse
  message_stream q p =
      let begun = begin q (send_envelope p) [] s.middlewares in
      check_streaming (
        if lacks_message_id s p
        then pure (http_exception 400 "INVALID_ARGUMENT" "messageId is required.")
        else with_tm (do
          o ← opened begun (deliver_stream s begun.envelope.params) begun.raised
          pure (event_stream (v10_frames o) (finish begun.envelope none begun.started))))

  unfoldable pub tasks_get : String → Option ℤ → Act RestResponse
  tasks_get k n = with_tm (do t ← get_task s (number_json n) k; pure (got_task k t))

  abbrev pub list_with : ListParams → Option TaskState → Act RestResponse
  list_with p status = do
    query ← valid_query (s.validators.list_query (raw_params p status))
    result ← list_all s query
    pure (json_response (tasks_result (sanitized_list result)))

  abbrev pub list_parsed : ListParams → String → Option TaskState → Act RestResponse
  list_parsed p status none = pure (
      build_error
        (bad_request validation_error ("Invalid status: " & s.texts.repr (string status)) []))
  list_parsed p status (some state) = list_with p (some state)

  abbrev pub list_status : ListParams → Option String → Act RestResponse
  list_status p none = list_with p none
  list_status p (some status) = list_parsed p status (s.validators.task_state (string status))

  unfoldable pub tasks_list : ListParams → Act RestResponse
  tasks_list p = with_tm (list_status p p.status)

  unfoldable pub tasks_cancel : String → Act RestResponse
  tasks_cancel k =
      with_tm (do t ← cancel_task k; pure (json_response (bare_task (sanitize_task_v10 t))))

  -- `_subscribe_setup_v10`, and `tasks_subscribe` on what it yields
  unfoldable pub tasks_subscribe : HttpRequest → String → Act RestResponse
  tasks_subscribe q k = check_streaming (
      with_tm (do
        y ← subscribe_task k (last_event_id s q) s.stream s.live
        o ← open_yield y
        pure (event_stream (v10_frames o) none)))

  -- `_check_push_supported` and `_get_push_store`, before the rest of a handler
  unfoldable pub with_push : Act RestResponse → Act RestResponse
  with_push m w =
      (if pushes s.capabilities
          then (if has_store w.push_store
              then m
              else pure
                  (http_exception 501 "UNIMPLEMENTED" "Push notifications are not configured"))
          else pure (http_exception 501 "UNIMPLEMENTED" "Push notifications are not supported"))
        w

  unfoldable pub push_config_set : String → Option Json → Act RestResponse
  push_config_set k body = with_push (do
    config ← parsed_body body
    bound ← set_push_config s (s.validators.push_config config) k
    pure (json_response (push_config_result bound)))

  unfoldable pub push_config_get_by_id : String → String → Act RestResponse
  push_config_get_by_id k config_id = with_push (do
    found ← get_push_config (some config_id) k
    pure (json_response (push_config_result found)))

  unfoldable pub push_config_list : String → Act RestResponse
  push_config_list k =
      with_push
        (do configs ← list_push_configs k; pure (json_response (push_configs_result configs)))

  unfoldable pub push_config_delete : String → String → Act RestResponse
  push_config_delete k config_id =
      with_push (do deleted ← delete_push_config config_id k; pure no_body)

-- A request, by its route.
pub data Route : Type 0 where
  post_message : SendMessageRequest → Route
  post_stream : SendMessageRequest → Route
  get_one : String → Option ℤ → Route
  get_list : ListParams → Route
  post_cancel : String → Route
  post_subscribe : String → Route
  set_config : String → Option Json → Route
  get_config : String → String → Route
  list_configs : String → Route
  delete_config : String → String → Route
  get_card get_health : Route

-- `build_a2a_router_v10`
unfoldable pub serve : Service → HttpRequest → Route → Act RestResponse
serve s q (post_message p) = message_send s q p
serve s q (post_stream p) = message_stream s q p
serve s q (get_one k n) = tasks_get s k n
serve s q (get_list p) = tasks_list s p
serve s q (post_cancel k) = tasks_cancel s k
serve s q (post_subscribe k) = tasks_subscribe s q k
serve s q (set_config k body) = push_config_set s k body
serve s q (get_config k config_id) = push_config_get_by_id s k config_id
serve s q (list_configs k) = push_config_list s k
serve s q (delete_config k config_id) = push_config_delete s k config_id
serve s q get_card = card_from q s.extended_card_provider
serve s q get_health = pure (json_response health_result)
