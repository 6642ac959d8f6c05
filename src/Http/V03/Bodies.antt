-- ===== src/Http/V03/Bodies.antt =====
-- jsonrpc.py: what the handlers answer, the errors, and the arguments they pass on.
use Prim.Native.String.{◌++◌ as ◌&◌}
use a2akit.Prelude.{ℕ, pos, negsuc, String, false, Option, none, some, List, [], ◌∷◌}
use a2akit.Dict.{Dict}
use a2akit.Wire.{
  StreamEvent, snapshot, message, status_update, artifact_update, direct_reply, terminal_marker,
  SendMessageRequest, TaskState,
}
use a2akit.Errors.{
  Error, task_not_found, task_not_cancelable, task_terminal_state, context_mismatch,
  task_not_accepting_messages, unsupported_operation, content_type_not_supported, concurrency,
  authentication_required, push_config_not_found,
}
use a2akit.Middleware.{HttpRequest}
use a2akit.Push.Delivery.{sanitized}
use a2akit.Manager.Messages.{Answer, replied, answered}
use a2akit.Runtime.{Act, pure}
use a2akit.Http.Json.{Json, null, boolean, number, Members, find, get, or_default}
use a2akit.Http.Catalog.{RpcError}
use a2akit.Http.Envelope.{RequestEnvelope}
use a2akit.Http.Frames.{
  Wrapped, task_payload, message_payload, status_payload, closing_payload, artifact_payload, Frame,
}
use a2akit.Http.Service.{
  RawQuery, Payload, wrapped, card_result, null_result, Response, failed, succeeded,
}
use a2akit.Http.Rpc.{
  Refusal, unparsable, not_an_object, wrong_version, no_method, wrong_params, unknown_method,
}

-- `_error_response`, with the data that goes along, if any
abbrev pub rpc : ℕ → String → Dict String → RpcError
rpc below said extra = record {
  code = negsuc below;
  message = said;
  reason = none;
  metadata = extra;
}

-- The codes, each as the number below -1 that it is.
abbrev pub invalid_request : ℕ
invalid_request = 32599

abbrev pub invalid_parameters : ℕ
invalid_parameters = 32601

abbrev pub task_not_found_code : ℕ
task_not_found_code = 32000

abbrev pub unsupported_code : ℕ
unsupported_code = 32003

-- The answers of `_parse_body` and of the endpoint itself.
unfoldable pub refusal : Refusal → RpcError
refusal unparsable = rpc 32699 "Parse error" []
refusal not_an_object = rpc invalid_request "Invalid Request" []
refusal wrong_version = rpc invalid_request "Invalid Request: jsonrpc must be '2.0'" []
refusal no_method = rpc invalid_request "Invalid Request: method must be a string" []
refusal wrong_params = rpc invalid_parameters "Invalid params: must be an object" []
refusal (unknown_method method) =
    rpc 32600 ("Method not found: " & method) (("method", method) ∷ [])

-- `_map_exception_to_error`
unfoldable pub map_exception_to_error : (Error → String) → Error → RpcError
map_exception_to_error str task_not_found = rpc task_not_found_code "Task not found" []
map_exception_to_error str (task_not_cancelable t) = rpc 32001 "Task is not cancelable" []
map_exception_to_error str task_terminal_state =
    rpc unsupported_code "Task is terminal; cannot continue" []
map_exception_to_error str context_mismatch =
    rpc invalid_parameters "contextId does not match task" []
map_exception_to_error str (task_not_accepting_messages t) =
    rpc invalid_parameters "Task does not accept messages" []
map_exception_to_error str unsupported_operation =
    rpc unsupported_code (str unsupported_operation) []
map_exception_to_error str (content_type_not_supported mime_type) =
    rpc 32004 "Incompatible content types" (("mimeType", mime_type) ∷ [])
map_exception_to_error str (concurrency v) =
    rpc unsupported_code "Concurrent modification, please retry" []
map_exception_to_error str (authentication_required scheme) =
    rpc invalid_request (scheme & " authentication required") []
map_exception_to_error str push_config_not_found =
    rpc task_not_found_code (str push_config_not_found) []
map_exception_to_error str _ = rpc 32602 "Internal error" []

-- RequestEnvelope(params=...): there is no tenant in v0.3.
abbrev pub envelope_of : Option SendMessageRequest → RequestEnvelope
envelope_of p = record { params = p; tenant = none; context = []; a2a_error = none }

-- The wire object of an event that can be converted.
abbrev pub wire_object : StreamEvent → Wrapped
wire_object (terminal_marker task_id context_id status) = closing_payload task_id context_id status
wire_object (direct_reply m) = message_payload m
wire_object (snapshot t) = task_payload (sanitized t)
wire_object (message m) = message_payload m
wire_object (status_update task_id context_id status) = status_payload task_id context_id status
wire_object (artifact_update task_id context_id a append last) =
    artifact_payload task_id context_id a append last none

abbrev pub missing : String → RpcError
missing said = rpc invalid_parameters said []

abbrev pub first_frames : Option ℕ → Option Wrapped → List Frame
first_frames event_id none = []
first_frames event_id (some v) = (event_id, v) ∷ []

abbrev pub answer_event : Answer → StreamEvent
answer_event (replied m) = message m
answer_event (answered t) = snapshot t

abbrev pub result_payload : Option Wrapped → Payload
result_payload none = null_result
result_payload (some v) = wrapped v

abbrev pub query_of : Members → Option TaskState → RawQuery
query_of params status = record {
  context_id = get params "contextId";
  tenant = null;
  status = status;
  page_size = or_default (find params "pageSize") (number (pos 50));
  page_token = get params "pageToken";
  history_length = get params "historyLength";
  status_timestamp_after = get params "statusTimestampAfter";
  include_artifacts = or_default (find params "includeArtifacts") (boolean false);
}

abbrev pub got_card : Json → Option String → Response
got_card req_id none = failed req_id (rpc 32602 "Internal error" [])
got_card req_id (some card) = succeeded req_id (card_result card)

abbrev pub card_from : Json → HttpRequest → Option (HttpRequest → Option String) → Act Response
card_from req_id q none =
    pure (failed req_id (rpc 32006 "Authenticated Extended Card not configured" []))
card_from req_id q (some provider) = pure (got_card req_id (provider q))
