-- ===== src/Http/Rpc.antt =====
-- jsonrpc_v10.py: `_parse_body` and `jsonrpc_endpoint`, which jsonrpc.py writes out again with its
-- own error shapes: a binding has these, its methods and its handlers.
pub mod Table
pub mod Replies
pub mod Answered
pub mod Denied
pub mod Refused
pub mod Steady
use a2akit.Prelude.{
  String, Bool, true, false, not, ◌&&◌, ◌||◌, ◌==◌, Option, none, some, List, [], ◌∷◌, any, is_some,
  if◌then◌else◌,
}
use a2akit.Dict
use a2akit.Dict.{Dict}
use a2akit.Errors.{Error, is_cancellation}
use a2akit.Middleware.{HttpRequest}
use a2akit.Runtime.{Act, pure, raise, ◌>>=◌}
use a2akit.Http.Json.{Json, null, string, object, Members, no_members, find, get, or_default}
use a2akit.Http.Catalog.{RpcError}
use a2akit.Http.Envelope.{RequestEnvelope, A2aMiddleware, Begun, begin, finally_finish}
use a2akit.Http.Service.{Response, no_content, failed}

-- Why the endpoint itself refuses a request.
pub data Refusal : Type 0 where
  unparsable not_an_object wrong_version no_method wrong_params : Refusal
  unknown_method : String → Refusal

abbrev pub Handler : Type 0
Handler = HttpRequest → Json → Members → Act Response

pub record Binding : Type 0 where
  pub refusal : Refusal → RpcError
  pub map_exception : Error → RpcError
  pub methods : Dict Handler
  pub self_handled : List String
  pub public_methods : List String
  pub streaming_methods : List String
  pub envelope : RequestEnvelope

-- method in names
abbrev pub among : List String → String → Bool
among names method = any (λ name. name == method) names

abbrev pub no_middlewares : List A2aMiddleware → Bool
no_middlewares [] = true
no_middlewares (mw ∷ mws) = false

-- `if is_notification: return Response(status_code=204)`, or the answer
abbrev pub reply : Bool → Response → Response
reply is_notification r = if is_notification then no_content else r

-- What `_parse_body` returns: an answer, or the id, whether it is a notification, the method and
-- the body.
pub data Parsed : Type 0 where
  replied : Response → Parsed
  request : Json → Bool → String → Members → Parsed

abbrev pub is_version : Json → Bool
is_version (string s) = s == "2.0"
is_version _ = false

-- The member `params`: none is the empty object.
abbrev pub params_of : Json → Option Members
params_of null = some no_members
params_of (object params) = some params
params_of _ = none

module _ (b : Binding) where
  abbrev pub refused : Bool → Json → Refusal → Response
  refused is_notification req_id r = reply is_notification (failed req_id (b.refusal r))

  abbrev pub with_method : Json → Bool → Members → Json → Parsed
  with_method req_id is_notification body (string method) =
      request req_id is_notification method body
  with_method req_id is_notification body _ = replied (refused is_notification req_id no_method)

  abbrev pub parse_object : Json → Bool → Members → Parsed
  parse_object req_id is_notification body =
      if is_version (get body "jsonrpc")
      then with_method req_id is_notification body (get body "method")
      else replied (refused is_notification req_id wrong_version)

  -- `_parse_body`
  unfoldable pub parse_body : Option Json → Parsed
  parse_body none = replied (failed null (b.refusal unparsable))
  parse_body (some (object body)) =
      parse_object (or_default (find body "id") null) (not (is_some (find body "id"))) body
  parse_body (some _) = replied (failed null (b.refusal not_an_object))

  abbrev pub silenced : Bool → Act Response → Act Response
  silenced is_notification m = do r ← m; pure (reply is_notification r)

  abbrev pub flagged : Begun → Error → Begun
  flagged begun e = record begun { envelope = record begun.envelope { a2a_error = some e } }

  -- The pipeline of the dispatcher, after the first loop.
  unfoldable pub guarded : Begun → Bool → Json → Act Response → Option Error → Act Response
  guarded begun is_notification req_id handle none =
      finally_finish begun (silenced is_notification handle)
  guarded begun is_notification req_id handle (some e) =
      if is_cancellation e
      then finally_finish begun (raise e)
      else finally_finish (flagged begun e)
          (pure (reply is_notification (failed req_id (b.map_exception e))))

  unfoldable pub dispatched :
      List A2aMiddleware → HttpRequest → Json → Bool → String → Act Response → Act Response
  dispatched mws q req_id is_notification method handle =
      let begun = begin q b.envelope [] mws in
      if among b.self_handled method || among b.public_methods method || no_middlewares mws
      then silenced is_notification handle
      else guarded begun is_notification req_id handle begun.raised

  abbrev pub with_handler :
      List A2aMiddleware
      → HttpRequest
      → Json
      → Bool
      → String
      → Members
      → Option Handler
      → Act Response
  with_handler mws q req_id is_notification method params none =
      pure (refused is_notification req_id (unknown_method method))
  with_handler mws q req_id is_notification method params (some handler) =
      if is_notification && among b.streaming_methods method
      then pure no_content
      else dispatched mws q req_id is_notification method (handler q req_id params)

  abbrev pub with_params :
      List A2aMiddleware → HttpRequest → Json → Bool → String → Option Members → Act Response
  with_params mws q req_id is_notification method none =
      pure (refused is_notification req_id wrong_params)
  with_params mws q req_id is_notification method (some params) =
      with_handler mws q req_id is_notification method params (Dict.get b.methods method)

  abbrev pub after_parse : List A2aMiddleware → HttpRequest → Parsed → Act Response
  after_parse mws q (replied r) = pure r
  after_parse mws q (request req_id is_notification method body) =
      with_params mws q req_id is_notification method (params_of (get body "params"))

  -- `jsonrpc_endpoint`; the body is nothing where it is no JSON.
  unfoldable pub jsonrpc_endpoint : List A2aMiddleware → HttpRequest → Option Json → Act Response
  jsonrpc_endpoint mws q body = after_parse mws q (parse_body body)
