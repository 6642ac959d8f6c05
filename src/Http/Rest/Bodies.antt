-- ===== src/Http/Rest/Bodies.antt =====
-- endpoints_v10.py: the responses of the routes, the arguments that they pass on, and the two checks
-- beside them, of the version and of readiness.
use Prim.Native.String.{slice}
use text.Mathlib.Text.{find?}
use a2akit.Prelude.{
  ℕ, ℤ, String, Bool, true, false, ◌&&◌, ◌==◌, Option, none, some, List, [], ◌∷◌, if◌then◌else◌,
}
use a2akit.Dict.{Dict}
use a2akit.Wire.{Task, TaskState}
use a2akit.Errors.{Error, value_error, other_error}
use a2akit.Middleware.{HttpRequest}
use a2akit.Push.Store.{PushStore}
use a2akit.Runtime.{Act, pure, raise}
use a2akit.Http.Json.{Json, null, boolean, number, string}
use a2akit.Http.Catalog.{ErrorResponse, ErrorDescriptor}
use a2akit.Http.Frames.{Frame, sanitize_task_v10}
use a2akit.Http.Service.{RawQuery, Payload, bare_task, card_result}

pub data RestResponse : Type 0 where
  json_response : Payload → RestResponse
  build_error : ErrorResponse → RestResponse
  http_exception : ℕ → String → String → RestResponse
  event_stream : List Frame → Option Error → RestResponse
  no_body : RestResponse

-- `_check_a2a_version_v10`: whether the header is accepted. Its first part has to be 1.
abbrev first_part : String → String
first_part s = elim (find? s ".") [ none ↦ s | some i ↦ slice s 0 i ]

unfoldable pub check_a2a_version_v10 : (String → String) → Option String → Bool
check_a2a_version_v10 strip none = true
check_a2a_version_v10 strip (some version) = first_part (strip version) == "1"

abbrev pub bad_request : ErrorDescriptor → String → Dict String → ErrorResponse
bad_request d said extra = record {
  http_status = d.http_status;
  grpc_status = d.grpc_status;
  message = said;
  reason = d.reason;
  metadata = extra;
  headers = [];
}

abbrev pub not_found_response : String → String → Dict String → ErrorResponse
not_found_response said reason extra = record {
  http_status = 404;
  grpc_status = "NOT_FOUND";
  message = said;
  reason = reason;
  metadata = extra;
  headers = [];
}

-- The query parameters of `GET /tasks`.
pub record ListParams : Type 0 where
  pub context_id : Option String
  pub tenant : Option String
  pub status : Option String
  pub page_size : ℤ
  pub page_token : Option String
  pub history_length : Option ℤ
  pub status_timestamp_after : Option String
  pub include_artifacts : Bool

abbrev text_json : Option String → Json
text_json none = null
text_json (some s) = string s

abbrev pub number_json : Option ℤ → Json
number_json none = null
number_json (some n) = number n

abbrev pub raw_params : ListParams → Option TaskState → RawQuery
raw_params p status = record {
  context_id = text_json p.context_id;
  tenant = text_json p.tenant;
  status = status;
  page_size = number p.page_size;
  page_token = text_json p.page_token;
  history_length = number_json p.history_length;
  status_timestamp_after = text_json p.status_timestamp_after;
  include_artifacts = boolean p.include_artifacts;
}

abbrev pub got_task : String → Option Task → RestResponse
got_task k none =
    build_error (not_found_response "Task not found" "TASK_NOT_FOUND" (("taskId", k) ∷ []))
got_task k (some t) = json_response (bare_task (sanitize_task_v10 t))

abbrev pub card_answer : Option String → Act RestResponse
card_answer none = raise other_error
card_answer (some card) = pure (json_response (card_result card))

abbrev pub card_from : HttpRequest → Option (HttpRequest → Option String) → Act RestResponse
card_from q none = pure (
    build_error (
      not_found_response "Authenticated Extended Card not configured" "EXTENDED_CARD_NOT_CONFIGURED"
        []))
card_from q (some provider) = card_answer (provider q)

abbrev pub parsed_body : Option Json → Act Json
parsed_body none = raise value_error
parsed_body (some body) = pure body

abbrev pub has_store : Option PushStore → Bool
has_store none = false
has_store (some store) = true

-- What a component's `health_check` does, where there is one: it reports a status, or it raises an
-- exception, of which `str` is given.
pub data Check : Type 0 where
  absent : Check
  reports : String → Check
  fails : String → Check

abbrev pub status_of : Check → String
status_of absent = "unavailable"
status_of (reports status) = status
status_of (fails text) = "error"

-- The text of an exception goes into the answer.
abbrev pub error_of : Check → Option String
error_of (fails text) = some text
error_of _ = none

-- `readiness_check`: the HTTP status, and the status of each component, with its error
unfoldable pub readiness_check : Check → Check → Check → ℕ × List (String × Option String)
readiness_check storage broker event_bus = (
  if status_of storage == "ok" && (status_of broker == "ok" && status_of event_bus == "ok")
      then 200
      else 503,
  (status_of storage, error_of storage)
      ∷ ((status_of broker, error_of broker) ∷ ((status_of event_bus, error_of event_bus) ∷ [])),
)
