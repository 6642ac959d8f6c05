-- ===== src/Http/Catalog.antt =====
-- _errors_v10.py: the catalogue of errors, and the errors that it makes of exceptions. `str` of an
-- exception is an argument: the messages are those of the places that raise.
-- `InvalidAgentResponseError` is raised nowhere in the package.
use Prim.Native.String.{◌++◌ as ◌&◌}
use a2akit.Prelude.{ℕ, ℤ, negsuc, String, ◌==◌, Option, none, some, [], ◌∷◌, if◌then◌else◌}
use a2akit.Dict
use a2akit.Dict.{Dict}
use a2akit.Errors.{
  Error, task_not_found, task_terminal_state, task_not_accepting_messages, task_not_cancelable,
  unsupported_operation, context_mismatch, content_type_not_supported, concurrency,
  push_config_not_found, authentication_required,
}

pub record ErrorDescriptor : Type 0 where
  pub http_status : ℕ
  pub grpc_status : String
  pub json_rpc_code : ℤ
  pub reason : String
  pub default_message : String

-- The codes of JSON-RPC 2.0 and of A2A are negative: -32001 is `negsuc 32000`.
abbrev pub validation_error : ErrorDescriptor
validation_error = record {
  http_status = 400;
  grpc_status = "INVALID_ARGUMENT";
  json_rpc_code = negsuc 32599;
  reason = "INVALID_REQUEST";
  default_message = "Invalid request";
}

abbrev pub method_not_found : ErrorDescriptor
method_not_found = record {
  http_status = 404;
  grpc_status = "NOT_FOUND";
  json_rpc_code = negsuc 32600;
  reason = "METHOD_NOT_FOUND";
  default_message = "Method not found";
}

abbrev pub parse_error : ErrorDescriptor
parse_error = record {
  http_status = 400;
  grpc_status = "INVALID_ARGUMENT";
  json_rpc_code = negsuc 32699;
  reason = "PARSE_ERROR";
  default_message = "Parse error";
}

abbrev pub internal_error : ErrorDescriptor
internal_error = record {
  http_status = 500;
  grpc_status = "INTERNAL";
  json_rpc_code = negsuc 32602;
  reason = "INTERNAL_ERROR";
  default_message = "Internal error";
}

-- ERROR_CATALOG
unfoldable pub error_catalog : Error → Option ErrorDescriptor
error_catalog task_not_found = some (record {
  http_status = 404;
  grpc_status = "NOT_FOUND";
  json_rpc_code = negsuc 32000;
  reason = "TASK_NOT_FOUND";
  default_message = "Task not found";
})
error_catalog task_terminal_state = some (record {
  http_status = 409;
  grpc_status = "FAILED_PRECONDITION";
  json_rpc_code = negsuc 32003;
  reason = "TASK_TERMINAL_STATE";
  default_message = "Task is in terminal state";
})
error_catalog (task_not_cancelable s) = some (record {
  http_status = 409;
  grpc_status = "FAILED_PRECONDITION";
  json_rpc_code = negsuc 32001;
  reason = "TASK_NOT_CANCELABLE";
  default_message = "Task is not cancelable";
})
error_catalog context_mismatch = some (record {
  http_status = 400;
  grpc_status = "INVALID_ARGUMENT";
  json_rpc_code = negsuc 32601;
  reason = "CONTEXT_MISMATCH";
  default_message = "contextId does not match task";
})
error_catalog (task_not_accepting_messages s) = some (record {
  http_status = 422;
  grpc_status = "FAILED_PRECONDITION";
  json_rpc_code = negsuc 32601;
  reason = "TASK_NOT_ACCEPTING_MESSAGES";
  default_message = "Task does not accept messages";
})
error_catalog unsupported_operation = some (record {
  http_status = 400;
  grpc_status = "UNIMPLEMENTED";
  json_rpc_code = negsuc 32003;
  reason = "UNSUPPORTED_OPERATION";
  default_message = "Operation not supported";
})
error_catalog (content_type_not_supported mime_type) = some (record {
  http_status = 415;
  grpc_status = "INVALID_ARGUMENT";
  json_rpc_code = negsuc 32004;
  reason = "CONTENT_TYPE_NOT_SUPPORTED";
  default_message = "Incompatible content type";
})
error_catalog (concurrency v) = some (record {
  http_status = 409;
  grpc_status = "ABORTED";
  json_rpc_code = negsuc 32003;
  reason = "CONCURRENT_MODIFICATION";
  default_message = "Concurrent modification, please retry";
})
error_catalog (authentication_required scheme) = some (record {
  http_status = 401;
  grpc_status = "UNAUTHENTICATED";
  json_rpc_code = negsuc 32602;
  reason = "AUTH_REQUIRED";
  default_message = "Authentication required";
})
error_catalog push_config_not_found = some (record {
  http_status = 404;
  grpc_status = "NOT_FOUND";
  json_rpc_code = negsuc 32000;
  reason = "PUSH_CONFIG_NOT_FOUND";
  default_message = "Push config not found";
})
error_catalog _ = none

abbrev catalogued : Option ErrorDescriptor → ErrorDescriptor
catalogued none = internal_error
catalogued (some d) = d

unfoldable pub descriptor_for : Error → ErrorDescriptor
descriptor_for e = catalogued (error_catalog e)

-- str(exc) or desc.default_message, but for an exception that is not in the catalogue
abbrev pub message_for : Option ErrorDescriptor → String → String
message_for none text = internal_error.default_message
message_for (some d) text = if text == "" then d.default_message else text

-- The metadata that the exception itself carries.
unfoldable pub metadata_of : Error → Dict String
metadata_of (content_type_not_supported mime_type) = ("mimeType", mime_type) ∷ []
metadata_of _ = []

-- The error of a JSON-RPC answer, with what its `google.rpc.ErrorInfo` says; that of v0.3 has no
-- reason.
pub record RpcError : Type 0 where
  pub code : ℤ
  pub message : String
  pub reason : Option String
  pub metadata : Dict String

-- `jsonrpc_error_from_exception`, without the request's id
unfoldable pub jsonrpc_error_from_exception : (Error → String) → Error → RpcError
jsonrpc_error_from_exception str e = record {
  code = (descriptor_for e).json_rpc_code;
  message = message_for (error_catalog e) (str e);
  reason = some (descriptor_for e).reason;
  metadata = metadata_of e;
}

-- `_V10ErrorBody` with the status and the headers of its response
pub record ErrorResponse : Type 0 where
  pub http_status : ℕ
  pub grpc_status : String
  pub message : String
  pub reason : String
  pub metadata : Dict String
  pub headers : Dict String

-- merged_meta.setdefault(k, v)
abbrev set_defaults : Dict String → Dict String → Dict String
set_defaults d [] = d
set_defaults d ((k, v) ∷ e) = elim (Dict.get d k) [
  | none ↦ set_defaults (Dict.set d k v) e
  | some w ↦ set_defaults d e
]

-- `exc.realm` is an argument: the model's exception holds its scheme.
unfoldable pub challenge : String → Error → Dict String → Dict String
challenge realm (authentication_required scheme) headers =
    Dict.set headers "WWW-Authenticate" (scheme & (" realm=\"" & (realm & "\"")))
challenge realm _ headers = headers

-- message or str(exc) or desc.default_message
abbrev given_or : Option String → String → String
given_or none text = text
given_or (some m) text = if m == "" then text else m

unfoldable pub build_error_from_exception :
    (Error → String) → String → Error → Option String → Dict String → Dict String → ErrorResponse
build_error_from_exception str realm e message metadata headers =
    let d = descriptor_for e in
    let text : String = if str e == "" then d.default_message else str e in
    record {
      http_status = d.http_status;
      grpc_status = d.grpc_status;
      message = elim (error_catalog e) [
        | none ↦ internal_error.default_message
        | some found ↦ given_or message text
      ];
      reason = d.reason;
      metadata = set_defaults metadata (metadata_of e);
      headers = challenge realm e headers;
    }
