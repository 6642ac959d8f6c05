-- ===== src/Http/V03.antt =====
-- jsonrpc.py: the handlers of the JSON-RPC binding of v0.3, and the table of them. The parameters
-- are validated as those of v0.3 and converted to v1.0 by `validators`; whether an event, a task or
-- a message can be converted to v0.3 is an argument, `convertible`.

pub mod Answered
pub mod Bodies
pub mod Refused
pub mod Settled
use Prim.Native.String.{◌++◌ as ◌&◌}
use a2akit.Prelude.{
  String, Bool, true, false, not, ◌&&◌, Option, none, some, List, [], ◌∷◌, ◌++◌, map, if◌then◌else◌,
}
use a2akit.Dict.{Dict}
use a2akit.Wire.{Task, StreamEvent, snapshot, message, SendMessageRequest, TaskState}
use a2akit.Errors.{Error, other_error}
use a2akit.EventBus.{BufferedEvent, is_stream_terminal}
use a2akit.Middleware.{HttpRequest}
use a2akit.Push.Delivery.{sanitized}
use a2akit.Storage.Listing.{ListTasksResult}
use a2akit.Manager.Cancellation.{cancel_task}
use a2akit.Runtime.{Act, ◌>>=◌, ◌>>◌, pure, raise}
use a2akit.Http.Json.{Json, null, Members, get, truthy, ◌or◌}
use a2akit.Http.Catalog.{RpcError}
use a2akit.Http.Frames.{Wrapped, Frame, is_direct_reply}
use a2akit.Http.Service.{
  Service, tasks_result, push_config_result, push_configs_result, health_result, null_result,
  Response, failed, succeeded, except_exception,
}
use a2akit.Http.Rpc.{Binding, Handler, jsonrpc_endpoint}
use a2akit.Http.V10.Bodies.{valid_query, pushes, streams}
use a2akit.Http.Actions.{
  Opened, get_tm, lacks_message_id, sent, sent_stream, with_id, subscribed, get_task, list_all,
  set_push_config, get_push_config, list_push_configs, delete_push_config,
}
use a2akit.Http.V03.Bodies.{
  rpc, task_not_found_code, unsupported_code, refusal, map_exception_to_error, envelope_of,
  wire_object, missing, first_frames, answer_event, result_payload, query_of, card_from,
}

module _ (s : Service) (convertible : StreamEvent → Bool) where
  -- `_serialize`
  unfoldable pub serialize : StreamEvent → Option Wrapped
  serialize event = if convertible event then some (wire_object event) else none

  -- async for event_id, event in agen; `closes` tells whether the loop ends at a terminal marker
  unfoldable pub later_frames : Bool → List BufferedEvent → List Frame
  later_frames closes [] = []
  later_frames closes (b ∷ bs) =
      let rest = later_frames closes bs in
      if is_direct_reply b.event
      then rest
      else first_frames (some b.id) (serialize b.event)
        ++ (if closes && is_stream_terminal b.event then [] else rest)

  -- `_sse_generator`
  unfoldable pub v03_frames : Bool → Opened → List Frame
  v03_frames closes o = first_frames o.event_id (serialize o.first) ++ later_frames closes o.later

  abbrev pub rpc_error : Error → RpcError
  rpc_error e = map_exception_to_error s.texts.str e

  abbrev pub mapped : Json → Act Response → Act Response
  mapped req_id m = except_exception m (λ e. pure (failed req_id (rpc_error e)))

  abbrev pub required : Json → Json → String → Act Response → Act Response
  required req_id v said m = if truthy v then m else pure (failed req_id (missing said))

  abbrev pub with_message :
      Json → String → (SendMessageRequest → Act Response) → Option SendMessageRequest → Act Response
  with_message req_id name f none = pure (failed req_id (missing ("Invalid params for " & name)))
  with_message req_id name f (some p) =
      if lacks_message_id s p then pure (failed req_id (missing "messageId is required")) else f p

  unfoldable pub handle_message_send : HttpRequest → Json → Members → Act Response
  handle_message_send q req_id params =
      with_message req_id "message/send"
        (λ p. mapped req_id (do
          result ← sent s q (envelope_of (some p))
          pure (succeeded req_id (result_payload (serialize (answer_event result))))))
        (s.validators.send_params params)

  -- `_check_streaming`, before the rest of a handler
  abbrev pub check_streaming : Json → Act Response → Act Response
  check_streaming req_id m =
      if streams s.capabilities
      then m
      else pure (failed req_id (rpc unsupported_code "Streaming is not supported by this agent" []))

  unfoldable pub handle_message_send_stream : HttpRequest → Json → Members → Act Response
  handle_message_send_stream q req_id params = check_streaming req_id (
      with_message req_id "message/stream"
        (λ p. mapped req_id (sent_stream s (v03_frames true) q req_id (envelope_of (some p))))
        (s.validators.send_params params))

  abbrev pub got_task : Json → Option Task → Response
  got_task req_id none = failed req_id (rpc task_not_found_code "Task not found" [])
  got_task req_id (some t) = succeeded req_id (result_payload (serialize (snapshot t)))

  unfoldable pub handle_tasks_get : Json → Members → Act Response
  handle_tasks_get req_id params = required req_id (get params "id") "Missing 'id' in params" (
      mapped req_id (do
        get_tm s
        with_id s (get params "id")
            (λ k. do t ← get_task s (get params "historyLength") k; pure (got_task req_id t))))

  -- A task that cannot be converted fails the whole list.
  abbrev pub all_convertible : List Task → Bool
  all_convertible [] = true
  all_convertible (t ∷ ts) = convertible (snapshot t) && all_convertible ts

  abbrev pub listed : Json → ListTasksResult → Act Response
  listed req_id result =
      if all_convertible result.tasks
      then pure
          (succeeded req_id (tasks_result (record result { tasks = map sanitized result.tasks })))
      else raise other_error

  abbrev pub list_with : Json → Members → Option TaskState → Act Response
  list_with req_id params status = do
    query ← valid_query (s.validators.list_query (query_of params status))
    result ← list_all s query
    listed req_id result

  abbrev pub list_parsed : Json → Members → Json → Option TaskState → Act Response
  list_parsed req_id params raw none =
      pure (failed req_id (missing ("Invalid status: " & s.texts.repr raw)))
  list_parsed req_id params raw (some state) = list_with req_id params (some state)

  abbrev pub list_status : Json → Members → Json → Act Response
  list_status req_id params null = list_with req_id params none
  list_status req_id params raw = list_parsed req_id params raw (s.validators.task_state raw)

  unfoldable pub handle_tasks_list : Json → Members → Act Response
  handle_tasks_list req_id params =
      mapped req_id (do get_tm s; list_status req_id params (get params "status"))

  unfoldable pub handle_tasks_cancel : Json → Members → Act Response
  handle_tasks_cancel req_id params = required req_id (get params "id") "Missing 'id' in params" (
      mapped req_id (do
        get_tm s
        t ← with_id s (get params "id") cancel_task
        pure (succeeded req_id (result_payload (serialize (snapshot t))))))

  unfoldable pub handle_tasks_resubscribe : HttpRequest → Json → Members → Act Response
  handle_tasks_resubscribe q req_id params = check_streaming req_id (
      required req_id (get params "id") "Missing 'id' in params" (
        mapped req_id
          (subscribed s (v03_frames false) q req_id (envelope_of none) (get params "id"))))

  -- `_check_push_supported`, before the rest of a handler
  abbrev pub check_push_supported : Json → Act Response → Act Response
  check_push_supported req_id m =
      if pushes s.capabilities
      then m
      else pure (failed req_id (rpc 32002 "Push notifications are not supported" []))

  unfoldable pub handle_push_set : Json → Members → Act Response
  handle_push_set req_id params =
      let task_id = get params "taskId" or get params "id" in
      let config = get params "pushNotificationConfig" in
      check_push_supported req_id (
        required req_id task_id "Missing 'taskId' in params" (
          required req_id config "Missing 'pushNotificationConfig'" (
            mapped req_id (do
              bound ← with_id s task_id (set_push_config s (s.validators.push_config config))
              pure (succeeded req_id (push_config_result bound))))))

  abbrev pub with_config_id : {A : Type 0} → Json → (Option String → Act A) → Act A
  with_config_id null f = f none
  with_config_id j f = with_id s j (λ k. f (some k))

  unfoldable pub handle_push_get : Json → Members → Act Response
  handle_push_get req_id params = check_push_supported req_id (
      required req_id (get params "id") "Missing 'id' in params" (
        mapped req_id (do
          found ← with_id s (get params "id") (λ k.
              with_config_id (get params "pushNotificationConfigId") (λ c. get_push_config c k))
          pure (succeeded req_id (push_config_result found)))))

  unfoldable pub handle_push_list : Json → Members → Act Response
  handle_push_list req_id params = check_push_supported req_id (
      required req_id (get params "id") "Missing 'id' in params" (
        mapped req_id (do
          configs ← with_id s (get params "id") list_push_configs
          pure (succeeded req_id (push_configs_result configs)))))

  unfoldable pub handle_push_delete : Json → Members → Act Response
  handle_push_delete req_id params =
      let config_id = get params "pushNotificationConfigId" in
      check_push_supported req_id (
        required req_id (get params "id") "Missing 'id' in params" (
          required req_id config_id "Missing 'pushNotificationConfigId'" (
            mapped req_id (do
              deleted ←
                  with_id s (get params "id")
                    (λ k. with_id s config_id (λ c. delete_push_config c k))
              pure (succeeded req_id null_result)))))

  -- `_JSONRPC_DISPATCH`
  unfoldable pub methods : Dict Handler
  methods =
      ("message/send", handle_message_send)
      ∷ (("message/stream", handle_message_send_stream)
          ∷ (("message/sendStream", handle_message_send_stream)
              ∷ (("tasks/get", λ q. handle_tasks_get)
                  ∷ (("tasks/list", λ q. handle_tasks_list)
                      ∷ (("tasks/cancel", λ q. handle_tasks_cancel)
                          ∷ (("tasks/resubscribe", handle_tasks_resubscribe)
                              ∷ (("tasks/pushNotificationConfig/set", λ q. handle_push_set)
                                  ∷ (("tasks/pushNotificationConfig/get", λ q. handle_push_get)
                                      ∷ ((
                                        "tasks/pushNotificationConfig/list",
                                        λ q. handle_push_list,
                                      )
                                          ∷ ((
                                            "tasks/pushNotificationConfig/delete",
                                            λ q. handle_push_delete,
                                          )
                                              ∷ ((
                                                "agent/getAuthenticatedExtendedCard",
                                                λ q req_id params.
                                                    card_from req_id q s.extended_card_provider,
                                              )
                                                  ∷ ((
                                                    "health",
                                                    λ q req_id params.
                                                        pure (succeeded req_id health_result),
                                                  )
                                                      ∷ []))))))))))))

  unfoldable pub binding : Binding
  binding = record {
    refusal = refusal;
    map_exception = rpc_error;
    methods = methods;
    self_handled =
        "message/send" ∷ ("message/sendStream" ∷ ("message/stream" ∷ ("tasks/resubscribe" ∷ [])));
    public_methods = "health" ∷ [];
    streaming_methods = "message/sendStream" ∷ ("message/stream" ∷ ("tasks/resubscribe" ∷ []));
    envelope = envelope_of none;
  }

  -- `jsonrpc_endpoint`
  unfoldable pub endpoint : HttpRequest → Option Json → Act Response
  endpoint = jsonrpc_endpoint binding s.middlewares
