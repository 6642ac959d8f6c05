-- ===== src/Http/Service.antt =====
-- What the handlers find in `request.app.state`, what they take from other packages (pydantic, the
-- URL policy's network, the texts of exceptions), and their answers. An answer's body is the value
-- that `model_dump` is given.
use a2akit.Prelude.{ℕ, ℤ, String, Bool, Option, List, if◌then◌else◌}
use a2akit.Wire.{Task, TaskState, SendMessageRequest}
use a2akit.Errors.{Error, is_cancellation}
use a2akit.EventBus.{BufferedEvent}
use a2akit.Storage.Listing.{ListTasksQuery, ListTasksResult}
use a2akit.Push.Store.{PushConfig, TaskPushConfig}
use a2akit.Push.Validation.{Network, Policy}
use a2akit.Middleware.{HttpRequest}
use a2akit.Runtime.{Act, raise, try_except}
use a2akit.Http.Json.{Json, Members}
use a2akit.Http.Catalog.{RpcError}
use a2akit.Http.Envelope.{A2aMiddleware}
use a2akit.Http.Frames.{Wrapped, Frame}

pub record Capabilities : Type 0 where
  pub streaming : Bool
  pub push_notifications : Bool

-- The arguments of `ListTasksQuery`, before pydantic validates them.
pub record RawQuery : Type 0 where
  pub context_id : Json
  pub tenant : Json
  pub status : Option TaskState
  pub page_size : Json
  pub page_token : Json
  pub history_length : Json
  pub status_timestamp_after : Json
  pub include_artifacts : Json

-- The models that pydantic validates, each with nothing where the validation fails.
pub record Validators : Type 0 where
  pub send_params : Members → Option SendMessageRequest
  pub list_query : RawQuery → Option ListTasksQuery
  pub push_config : Json → Option PushConfig
  pub task_state : Json → Option TaskState

-- `str` of an exception, `repr` and `str.strip`, the numbers in texts, the realm of an
-- authentication error, and what a call raises that is given a value of another type than it asks
-- for (an id that is no text).
pub record Texts : Type 0 where
  pub str : Error → String
  pub repr : Json → String
  pub strip : String → String
  pub int : String → Option ℤ
  pub str_int : ℤ → String
  pub event_number : String → Option ℕ
  pub rejects : Json → Error

-- `stream` is the number of the stream that a subscription gets, `live` what it delivers; the
-- extended card's provider builds the card, or raises.
pub record Service : Type 1 where
  pub has_task_manager : Bool
  pub middlewares : List A2aMiddleware
  pub capabilities : Option Capabilities
  pub extended_card_provider : Option (HttpRequest → Option String)
  pub input_modes : List String
  pub url_policy : Option Policy
  pub network : Network
  pub validators : Validators
  pub texts : Texts
  pub stream : ℕ
  pub live : List BufferedEvent

pub data Payload : Type 0 where
  wrapped : Wrapped → Payload
  bare_task : Task → Payload
  tasks_result : ListTasksResult → Payload
  push_config_result : TaskPushConfig → Payload
  push_configs_result : List TaskPushConfig → Payload
  card_result : String → Payload
  health_result null_result : Payload

-- An answer of the JSON-RPC endpoint. A streamed one has what its last clause raises, if anything.
pub data Response : Type 0 where
  no_content : Response
  failed : Json → RpcError → Response
  succeeded : Json → Payload → Response
  streamed : Json → List Frame → Option Error → Response

-- except Exception as exc: ...
module _ {A : Type 0} where
  abbrev pub unless_cancelled : (Error → Act A) → Error → Act A
  unless_cancelled h e = if is_cancellation e then raise e else h e

  unfoldable pub except_exception : Act A → (Error → Act A) → Act A
  except_exception m h = try_except m (unless_cancelled h)
