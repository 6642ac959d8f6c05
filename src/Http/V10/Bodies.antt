-- ===== src/Http/V10/Bodies.antt =====
-- jsonrpc_v10.py: what the handlers answer, and the arguments they pass on.
use Prim.Native.String.{◌++◌ as ◌&◌}
use a2akit.Prelude.{
  pos, negsuc, String, Bool, true, false, ◌==◌, Option, none, some, List, [], ◌∷◌, map,
  if◌then◌else◌,
}
use a2akit.Dict.{Dict}
use a2akit.Wire.{Task, SendMessageRequest, TaskState}
use a2akit.Errors.{value_error}
use a2akit.Middleware.{HttpRequest}
use a2akit.Push.Store.{text_or}
use a2akit.Storage.Listing.{ListTasksQuery, ListTasksResult}
use a2akit.Manager.Messages.{Answer, replied, answered}
use a2akit.Runtime.{Act, pure, raise}
use a2akit.Http.Json.{
  Json, boolean, number, object, Members, no_members, member, find, get, or_default, truthy,
  is_null, ◌or◌,
}
use a2akit.Http.Catalog.{RpcError, ErrorDescriptor, validation_error, parse_error, method_not_found}
use a2akit.Http.Envelope.{RequestEnvelope}
use a2akit.Http.Frames.{task_payload, message_payload, sanitize_task_v10, sse_frames, Frame}
use a2akit.Http.Service.{
  RawQuery, Capabilities, Payload, wrapped, bare_task, card_result, Response, failed, succeeded,
}
use a2akit.Http.Rpc.{
  Refusal, unparsable, not_an_object, wrong_version, no_method, wrong_params, unknown_method,
}
use a2akit.Http.Actions.{Opened}

-- `_error_response` with a descriptor's code and reason
abbrev pub described : ErrorDescriptor → String → RpcError
described d message = record {
  code = d.json_rpc_code;
  message = message;
  reason = some d.reason;
  metadata = [];
}

abbrev pub invalid : String → RpcError
invalid message = described validation_error message

-- The answers of `_parse_body` and of the endpoint itself.
unfoldable pub refusal : Refusal → RpcError
refusal unparsable = described parse_error parse_error.default_message
refusal not_an_object = invalid validation_error.default_message
refusal wrong_version = invalid "Invalid Request: jsonrpc must be '2.0'"
refusal no_method = invalid "Invalid Request: method must be a string"
refusal wrong_params = record {
  code = negsuc 32601;
  message = "Invalid params: must be an object";
  reason = some "INVALID_PARAMS";
  metadata = [];
}
refusal (unknown_method method) = record {
  code = method_not_found.json_rpc_code;
  message = "Method not found: " & method;
  reason = some method_not_found.reason;
  metadata = ("method", method) ∷ [];
}

-- The context of every envelope.
abbrev pub v10_context : Dict String
v10_context = ("a2a_version", "1.0") ∷ []

-- RequestEnvelope()
abbrev pub empty_envelope : RequestEnvelope
empty_envelope = record { params = none; tenant = none; context = v10_context; a2a_error = none }

-- send_params.tenant or None
abbrev pub tenant_of : Option String → Option String
tenant_of t = if text_or t "" == "" then none else t

abbrev pub send_envelope : SendMessageRequest → RequestEnvelope
send_envelope p = record {
  params = some p;
  tenant = tenant_of p.tenant;
  context = v10_context;
  a2a_error = none;
}

abbrev pub send_payload : Answer → Payload
send_payload (replied m) = wrapped (message_payload m)
send_payload (answered t) = wrapped (task_payload (sanitize_task_v10 t))

-- `_sse_gen`, on the stream that was opened
abbrev pub v10_frames : Opened → List Frame
v10_frames o = sse_frames o.event_id o.first o.later

-- The answer to `GetTask`, on what the task manager found.
abbrev pub got_task : Json → String → Option Task → Response
got_task req_id k none = failed req_id (record {
  code = negsuc 32000;
  message = "Task not found";
  reason = some "TASK_NOT_FOUND";
  metadata = ("taskId", k) ∷ [];
})
got_task req_id k (some t) = succeeded req_id (bare_task (sanitize_task_v10 t))

abbrev pub first_of : Members → String → String → Json
first_of params k j = elim (is_null (get params k)) [ true ↦ get params j | false ↦ get params k ]

-- The arguments of `ListTasksQuery`, but for the state.
abbrev pub raw_query : Members → Option TaskState → RawQuery
raw_query params status = record {
  context_id = get params "contextId" or get params "context_id";
  tenant = get params "tenant";
  status = status;
  page_size =
      or_default (find params "pageSize") (or_default (find params "page_size") (number (pos 50)));
  page_token = get params "pageToken" or get params "page_token";
  history_length = first_of params "historyLength" "history_length";
  status_timestamp_after = get params "statusTimestampAfter" or get params "status_timestamp_after";
  include_artifacts =
      boolean (truthy (get params "includeArtifacts" or get params "include_artifacts"));
}

abbrev pub sanitized_list : ListTasksResult → ListTasksResult
sanitized_list r = record r { tasks = map sanitize_task_v10 r.tasks }

-- A pydantic `ValidationError` is a `ValueError`.
abbrev pub valid_query : Option ListTasksQuery → Act ListTasksQuery
valid_query none = raise value_error
valid_query (some q) = pure q

-- The body of a push configuration, made of the flat fields of the parameters.
abbrev pub flat_config : Members → Json
flat_config params = object (
    member "id" (get params "id") (
      member "url" (get params "url") (
        member "token" (get params "token")
          (member "authentication" (get params "authentication") no_members))))

abbrev pub pushes : Option Capabilities → Bool
pushes none = false
pushes (some c) = c.push_notifications

abbrev pub streams : Option Capabilities → Bool
streams none = true
streams (some c) = c.streaming

abbrev pub card_answer : Json → Option String → Response
card_answer req_id none = failed req_id (record {
  code = negsuc 32602;
  message = "Internal error";
  reason = some "INTERNAL_ERROR";
  metadata = [];
})
card_answer req_id (some card) = succeeded req_id (card_result card)

-- The extended card, where a provider is configured.
abbrev pub card_from : Json → HttpRequest → Option (HttpRequest → Option String) → Act Response
card_from req_id q none = pure (
    failed req_id (record {
      code = negsuc 32006;
      message = "Authenticated Extended Card not configured";
      reason = some "EXTENDED_CARD_NOT_CONFIGURED";
      metadata = [];
    }))
card_from req_id q (some provider) = pure (card_answer req_id (provider q))
