-- ===== src/Http/V10.antt =====
-- jsonrpc_v10.py: the handlers of the twelve methods, and the table of them.
pub mod Answered
pub mod Bodies
pub mod Refused
pub mod Settled
use Prim.Native.String.{◌++◌ as ◌&◌}
use a2akit.Prelude.{negsuc, String, not, Option, none, some, [], ◌∷◌, if◌then◌else◌}
use a2akit.Dict
use a2akit.Dict.{Dict}
use a2akit.Wire.{SendMessageRequest, TaskState}
use a2akit.Errors.{Error, unsupported_operation}
use a2akit.Middleware.{HttpRequest}
use a2akit.Manager.Cancellation.{cancel_task}
use a2akit.Runtime.{Act, ◌>>=◌, ◌>>◌, pure}
use a2akit.Http.Json.{Json, null, Members, get, truthy, ◌or◌}
use a2akit.Http.Catalog.{RpcError, descriptor_for, jsonrpc_error_from_exception}
use a2akit.Http.Frames.{sanitize_task_v10}
use a2akit.Http.Service.{
  Service, bare_task, tasks_result, push_config_result, push_configs_result, health_result,
  null_result, Response, failed, succeeded, except_exception,
}
use a2akit.Http.Rpc.{Binding, Handler, jsonrpc_endpoint}
use a2akit.Http.Actions.{
  get_tm, lacks_message_id, sent, sent_stream, with_id, subscribed, get_task, list_all,
  set_push_config, get_push_config, list_push_configs, delete_push_config,
}
use a2akit.Http.V10.Bodies.{
  described, invalid, refusal, empty_envelope, send_envelope, send_payload, v10_frames, got_task,
  first_of, raw_query, sanitized_list, valid_query, flat_config, pushes, streams, card_from,
}

module _ (s : Service) where
  abbrev pub rpc_error : Error → RpcError
  rpc_error e = jsonrpc_error_from_exception s.texts.str e

  -- try: ... except Exception as exc: return _map_exception(req_id, exc)
  abbrev pub mapped : Json → Act Response → Act Response
  mapped req_id m = except_exception m (λ e. pure (failed req_id (rpc_error e)))

  -- Nothing where a parameter is missing, and then the answer that says so.
  abbrev pub required : Json → Json → String → Act Response → Act Response
  required req_id v message m = if truthy v then m else pure (failed req_id (invalid message))

  -- A request whose parameters pydantic has accepted, unless it has no message id.
  abbrev pub with_message :
      Json → String → (SendMessageRequest → Act Response) → Option SendMessageRequest → Act Response
  with_message req_id name f none = pure (failed req_id (invalid ("Invalid params for " & name)))
  with_message req_id name f (some p) =
      if lacks_message_id s p then pure (failed req_id (invalid "messageId is required")) else f p

  unfoldable pub handle_send_message : HttpRequest → Json → Members → Act Response
  handle_send_message q req_id params =
      with_message req_id "SendMessage"
        (λ p.
          mapped req_id
            (do result ← sent s q (send_envelope p); pure (succeeded req_id (send_payload result))))
        (s.validators.send_params params)

  -- `_check_streaming`, before the rest of a handler
  abbrev pub check_streaming : Json → Act Response → Act Response
  check_streaming req_id m =
      if streams s.capabilities
      then m
      else pure (
          failed req_id (
            described (descriptor_for unsupported_operation)
              "Streaming is not supported by this agent"))

  unfoldable pub handle_send_streaming_message : HttpRequest → Json → Members → Act Response
  handle_send_streaming_message q req_id params = check_streaming req_id (
      with_message req_id "SendStreamingMessage"
        (λ p. mapped req_id (sent_stream s v10_frames q req_id (send_envelope p)))
        (s.validators.send_params params))

  unfoldable pub handle_get_task : Json → Members → Act Response
  handle_get_task req_id params = required req_id (get params "id") "Missing 'id' in params" (
      mapped req_id (do
        get_tm s
        with_id s (get params "id") (λ k. do
          t ← get_task s (first_of params "historyLength" "history_length") k
          pure (got_task req_id k t))))

  abbrev pub list_with : Json → Members → Option TaskState → Act Response
  list_with req_id params status = do
    query ← valid_query (s.validators.list_query (raw_query params status))
    result ← list_all s query
    pure (succeeded req_id (tasks_result (sanitized_list result)))

  abbrev pub list_parsed : Json → Members → Json → Option TaskState → Act Response
  list_parsed req_id params raw none =
      pure (failed req_id (invalid ("Invalid status: " & s.texts.repr raw)))
  list_parsed req_id params raw (some state) = list_with req_id params (some state)

  abbrev pub list_status : Json → Members → Json → Act Response
  list_status req_id params null = list_with req_id params none
  list_status req_id params raw = list_parsed req_id params raw (s.validators.task_state raw)

  unfoldable pub handle_list_tasks : Json → Members → Act Response
  handle_list_tasks req_id params =
      mapped req_id (do get_tm s; list_status req_id params (get params "status"))

  unfoldable pub handle_cancel_task : Json → Members → Act Response
  handle_cancel_task req_id params = required req_id (get params "id") "Missing 'id' in params" (
      mapped req_id (do
        get_tm s
        t ← with_id s (get params "id") cancel_task
        pure (succeeded req_id (bare_task (sanitize_task_v10 t)))))

  unfoldable pub handle_subscribe_to_task : HttpRequest → Json → Members → Act Response
  handle_subscribe_to_task q req_id params = check_streaming req_id (
      required req_id (get params "id") "Missing 'id' in params"
        (mapped req_id (subscribed s v10_frames q req_id empty_envelope (get params "id"))))

  -- `_check_push_supported`, before the rest of a handler
  abbrev pub check_push_supported : Json → Act Response → Act Response
  check_push_supported req_id m =
      if pushes s.capabilities
      then m
      else pure (
          failed req_id (record {
            code = negsuc 32002;
            message = "Push notifications are not supported";
            reason = some "PUSH_NOTIFICATIONS_NOT_SUPPORTED";
            metadata = [];
          }))

  unfoldable pub handle_push_create : Json → Members → Act Response
  handle_push_create req_id params =
      let task_id = get params "taskId" or get params "task_id" in
      check_push_supported req_id (
        required req_id task_id "Missing taskId" (
          mapped req_id (do
            bound ←
                with_id s task_id
                  (set_push_config s (s.validators.push_config (flat_config params)))
            pure (succeeded req_id (push_config_result bound)))))

  abbrev pub any_task_id : Members → Json
  any_task_id params = get params "taskId" or get params "task_id" or get params "id"

  -- A configuration's id is optional for `handle_get_config`.
  abbrev pub with_config_id : {A : Type 0} → Json → (Option String → Act A) → Act A
  with_config_id null f = f none
  with_config_id j f = with_id s j (λ k. f (some k))

  unfoldable pub handle_push_get : Json → Members → Act Response
  handle_push_get req_id params =
      let config_id = get params "id" or get params "configId" in
      check_push_supported req_id (
        required req_id (any_task_id params) "Missing taskId" (
          mapped req_id (do
            found ←
                with_id s (any_task_id params)
                  (λ k. with_config_id config_id (λ c. get_push_config c k))
            pure (succeeded req_id (push_config_result found)))))

  unfoldable pub handle_push_list : Json → Members → Act Response
  handle_push_list req_id params = check_push_supported req_id (
      required req_id (any_task_id params) "Missing taskId" (
        mapped req_id (do
          configs ← with_id s (any_task_id params) list_push_configs
          pure (succeeded req_id (push_configs_result configs)))))

  unfoldable pub handle_push_delete : Json → Members → Act Response
  handle_push_delete req_id params =
      let task_id = get params "taskId" or get params "task_id" in
      let config_id = get params "id" or get params "configId" in
      check_push_supported req_id (
        required req_id task_id "Missing taskId or config id" (
          required req_id config_id "Missing taskId or config id" (
            mapped req_id (do
              deleted ← with_id s task_id (λ k. with_id s config_id (λ c. delete_push_config c k))
              pure (succeeded req_id null_result)))))

  unfoldable pub handle_get_extended_card : HttpRequest → Json → Act Response
  handle_get_extended_card q req_id = card_from req_id q s.extended_card_provider

  abbrev handle_health : Json → Act Response
  handle_health req_id = pure (succeeded req_id health_result)

  -- `_JSONRPC_DISPATCH`
  unfoldable pub methods : Dict Handler
  methods =
      ("SendMessage", handle_send_message)
      ∷ (("SendStreamingMessage", handle_send_streaming_message)
          ∷ (("GetTask", λ q. handle_get_task)
              ∷ (("ListTasks", λ q. handle_list_tasks)
                  ∷ (("CancelTask", λ q. handle_cancel_task)
                      ∷ (("SubscribeToTask", handle_subscribe_to_task)
                          ∷ (("CreateTaskPushNotificationConfig", λ q. handle_push_create)
                              ∷ (("GetTaskPushNotificationConfig", λ q. handle_push_get)
                                  ∷ (("ListTaskPushNotificationConfigs", λ q. handle_push_list)
                                      ∷ ((
                                        "DeleteTaskPushNotificationConfig",
                                        λ q. handle_push_delete,
                                      )
                                          ∷ ((
                                            "GetExtendedAgentCard",
                                            λ q req_id params. handle_get_extended_card q req_id,
                                          )
                                              ∷ (("health", λ q req_id params. handle_health req_id)
                                                  ∷ [])))))))))))

  unfoldable pub binding : Binding
  binding = record {
    refusal = refusal;
    map_exception = rpc_error;
    methods = methods;
    self_handled = "SendMessage" ∷ ("SendStreamingMessage" ∷ ("SubscribeToTask" ∷ []));
    public_methods = "health" ∷ [];
    streaming_methods = "SendStreamingMessage" ∷ ("SubscribeToTask" ∷ []);
    envelope = empty_envelope;
  }

  -- `jsonrpc_endpoint`
  unfoldable pub endpoint : HttpRequest → Option Json → Act Response
  endpoint = jsonrpc_endpoint binding s.middlewares
