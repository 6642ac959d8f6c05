-- ===== src/Http/Rpc/Answered.antt =====
-- The endpoint answers each request under its id, and no notification, if its handlers do.
use a2akit.Prelude.{
  String, ◌≡◌, refl, Bool, true, false, not, Option, none, some, List, is_some, inl, inr,
  Bool-cases, subst,
}
use a2akit.Dict
use a2akit.Errors.{Error}
use a2akit.Middleware.{HttpRequest}
use a2akit.Runtime.{Act}
use a2akit.Http.Json.{
  Json, null, object, Members, find, get, or_default, boolean, number, string, array,
}
use a2akit.Http.Catalog.{RpcError}
use a2akit.Http.Envelope.{A2aMiddleware, Begun}
use a2akit.Http.Service.{Response, failed}
use a2akit.Http.Rpc.{
  Binding, Handler, reply, parse_body, silenced, guarded, dispatched, with_handler, with_params,
  with_method, parse_object, is_version, after_parse, jsonrpc_endpoint, params_of,
}
use a2akit.Http.Rpc.Table.{AllHandlers, get-AllHandlers}
use a2akit.Http.Rpc.Replies.{
  response_id, request_id, Replies, pure-Replies, after-Replies, reply_rules,
}

-- A handler that answers under the id that it is given.
abbrev pub IsReplying : String → Handler → Type 0
IsReplying name h =
    (q : HttpRequest) (req_id : Json) (params : Members) → Replies (some req_id) (h q req_id params)

-- The id of a request that may be a notification.
abbrev asked : Bool → Json → Option Json
asked true req_id = none
asked false req_id = some req_id

asked_found : (o : Option Json) → asked (not (is_some o)) (or_default o null) ≡ o
asked_found none = refl
asked_found (some j) = refl

reply_failed :
    (n : Bool) (req_id : Json) (e : RpcError)
    → response_id (reply n (failed req_id e)) ≡ asked n req_id
reply_failed true req_id e = refl
reply_failed false req_id e = refl

module _ (b : Binding) (all : AllHandlers IsReplying b.methods) where
  silenced-Replies :
      (n : Bool) (req_id : Json) (m : Act Response)
      → Replies (some req_id) m
      → Replies (asked n req_id) (silenced b n m)
  silenced-Replies true req_id m h = search reply_rules
  silenced-Replies false req_id m h = after-Replies m _ h pure-Replies

  guarded-Replies :
      (begun : Begun) (n : Bool) (req_id : Json) (m : Act Response) (raised : Option Error)
      → Replies (some req_id) m
      → Replies (asked n req_id) (guarded b begun n req_id m raised)
  unfolding guarded
  guarded-Replies begun n req_id m none h = search (reply_rules, silenced-Replies)
  guarded-Replies begun n req_id m (some e) h = search (reply_rules, reply_failed)

  dispatched-Replies :
      (mws : List A2aMiddleware) (q : HttpRequest) (req_id : Json) (n : Bool) (method : String)
      (m : Act Response)
      → Replies (some req_id) m
      → Replies (asked n req_id) (dispatched b mws q req_id n method m)
  unfolding dispatched
  dispatched-Replies mws q req_id n method m h =
      search (reply_rules, silenced-Replies, guarded-Replies)

  with_handler-Replies :
      (mws : List A2aMiddleware) (q : HttpRequest) (req_id : Json) (n : Bool) (method : String)
      (params : Members) (h : Option Handler)
      → Dict.get b.methods method ≡ h
      → Replies (asked n req_id) (with_handler b mws q req_id n method params h)
  with_handler-Replies mws q req_id n method params none found = search (reply_rules, reply_failed)
  with_handler-Replies mws q req_id true method params (some h) found =
      let replying = get-AllHandlers IsReplying b.methods method h all found q req_id params in
      search (reply_rules, dispatched-Replies)
  with_handler-Replies mws q req_id false method params (some h) found =
      let replying = get-AllHandlers IsReplying b.methods method h all found q req_id params in
      dispatched-Replies mws q req_id false method _ replying

  with_params-Replies :
      (mws : List A2aMiddleware) (q : HttpRequest) (req_id : Json) (n : Bool) (method : String)
      (params : Option Members)
      → Replies (asked n req_id) (with_params b mws q req_id n method params)
  with_params-Replies mws q req_id n method none = search (reply_rules, reply_failed)
  with_params-Replies mws q req_id n method (some params) =
      with_handler-Replies mws q req_id n method params (Dict.get b.methods method) refl

  with_method-Replies :
      (mws : List A2aMiddleware) (q : HttpRequest) (req_id : Json) (n : Bool) (body : Members)
      (method : Json)
      → Replies (asked n req_id) (after_parse b mws q (with_method b req_id n body method))
  with_method-Replies mws q req_id n body (string method) =
      with_params-Replies mws q req_id n method (params_of (get body "params"))
  with_method-Replies mws q req_id n body null = search (reply_rules, reply_failed)
  with_method-Replies mws q req_id n body (boolean x) = search (reply_rules, reply_failed)
  with_method-Replies mws q req_id n body (number x) = search (reply_rules, reply_failed)
  with_method-Replies mws q req_id n body (array x) = search (reply_rules, reply_failed)
  with_method-Replies mws q req_id n body (object x) = search (reply_rules, reply_failed)

  parse_object-Replies :
      (mws : List A2aMiddleware) (q : HttpRequest) (req_id : Json) (n : Bool) (body : Members)
      → Replies (asked n req_id) (after_parse b mws q (parse_object b req_id n body))
  parse_object-Replies mws q req_id n body = elim (Bool-cases (is_version (get body "jsonrpc"))) [
    | inl e ↦ rw e (with_method-Replies mws q req_id n body (get body "method"))
    | inr e ↦ rw e (pure-Replies _ (reply_failed n req_id _))
  ]

  -- Where every handler of a binding answers under the id that it is given: whatever the body of a
  -- request is, the middleware, and what the others do meanwhile, the endpoint raises, or its
  -- answer carries the id of the request, and null where the body is no object; a notification is
  -- answered without a body.
  pub jsonrpc_endpoint-Replies :
      (mws : List A2aMiddleware) (q : HttpRequest) (body : Option Json)
      → Replies (request_id body) (jsonrpc_endpoint b mws q body)
  unfolding jsonrpc_endpoint parse_body
  jsonrpc_endpoint-Replies mws q none = search reply_rules
  jsonrpc_endpoint-Replies mws q (some null) = search reply_rules
  jsonrpc_endpoint-Replies mws q (some (boolean x)) = search reply_rules
  jsonrpc_endpoint-Replies mws q (some (number x)) = search reply_rules
  jsonrpc_endpoint-Replies mws q (some (string x)) = search reply_rules
  jsonrpc_endpoint-Replies mws q (some (array x)) = search reply_rules
  jsonrpc_endpoint-Replies mws q (some (object body)) =
      let id = find body "id" in
      subst
        (λ o.
          Replies o
            (after_parse b mws q (parse_object b (or_default id null) (not (is_some id)) body)))
        (asked_found id) (parse_object-Replies mws q (or_default id null) (not (is_some id)) body)
