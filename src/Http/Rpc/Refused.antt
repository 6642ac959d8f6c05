-- ===== src/Http/Rpc/Refused.antt =====
-- The endpoint, on a request that the middleware refuse, if the handlers that run the middleware
-- themselves leave the world as it is then.
use a2akit.Prelude.{
  String, ◌≡◌, refl, Bool, true, false, ◌||◌, ◌⊎◌, inl, inr, Option, none, some, List, [], ◌∷◌,
  is_some, Bool-cases,
}
use a2akit.Dict
use a2akit.Errors.{Error}
use a2akit.Middleware.{HttpRequest}
use a2akit.Runtime.{Act}
use a2akit.Http.Json.{Json, null, boolean, number, string, array, object, Members, get}
use a2akit.Http.Envelope.{RequestEnvelope, A2aMiddleware, Begun, begin}
use a2akit.Http.Service.{Response, no_content}
use a2akit.Http.Rpc.{
  Binding, Handler, among, no_middlewares, parse_body, guarded, dispatched, with_handler,
  with_params, with_method, parse_object, is_version, after_parse, jsonrpc_endpoint, params_of,
}
use a2akit.Http.Rpc.Table.{AllHandlers, get-AllHandlers}
use a2akit.Http.Rpc.Denied.{Untouched, denial_rules, if-Untouched, pure-Untouched, reply-Untouched}

-- Whatever the envelope is, a middleware's `before_dispatch` raises on the request.
abbrev pub Refuses : HttpRequest → List A2aMiddleware → Type 0
Refuses q mws = (env : RequestEnvelope) → is_some (begin q env [] mws).raised ≡ true

module _ (b : Binding) (q : HttpRequest) where
  -- The dispatcher runs the middleware for the method, or its handler is safe without.
  abbrev pub IsGuarded : String → Handler → Type 0
  IsGuarded name h =
      ((among b.self_handled name || among b.public_methods name) ≡ false)
      ⊎ ((req_id : Json) (params : Members) → Untouched (h q req_id params))

module _ (b : Binding) (q : HttpRequest) (mws : List A2aMiddleware) (refuses : Refuses q mws)
    (all : AllHandlers (IsGuarded b q) b.methods) where
  guarded-Untouched :
      (begun : Begun) (n : Bool) (req_id : Json) (m : Act Response) (raised : Option Error)
      → is_some raised ≡ true
      → Untouched (guarded b begun n req_id m raised)
  unfolding guarded
  guarded-Untouched begun n req_id m none h = cc
  guarded-Untouched begun n req_id m (some e) h = search denial_rules

  some_middlewares : (mws : List A2aMiddleware) → Refuses q mws → no_middlewares mws ≡ false
  unfolding begin
  some_middlewares [] h = cc (h b.envelope)
  some_middlewares (m ∷ ms) h = refl

  dispatched-Untouched :
      (req_id : Json) (n : Bool) (method : String) (h : Handler) (params : Members)
      → IsGuarded b q method h
      → Untouched (dispatched b mws q req_id n method (h q req_id params))
  unfolding dispatched
  dispatched-Untouched req_id n method h params (inl listed) =
      rw (listed, some_middlewares mws refuses)
        (guarded-Untouched (begin q b.envelope [] mws) n req_id _ _ (refuses b.envelope))
  dispatched-Untouched req_id n method h params (inr safe) =
      if-Untouched _ _ _ (reply-Untouched n _ (safe req_id params))
        (guarded-Untouched (begin q b.envelope [] mws) n req_id _ _ (refuses b.envelope))

  with_handler-Untouched :
      (req_id : Json) (n : Bool) (method : String) (params : Members) (h : Option Handler)
      → Dict.get b.methods method ≡ h
      → Untouched (with_handler b mws q req_id n method params h)
  with_handler-Untouched req_id n method params none found = search denial_rules
  with_handler-Untouched req_id n method params (some h) found =
      let safe = get-AllHandlers (IsGuarded b q) b.methods method h all found in
      if-Untouched _ _ _ (pure-Untouched no_content refl)
        (dispatched-Untouched req_id n method h params safe)

  with_params-Untouched :
      (req_id : Json) (n : Bool) (method : String) (params : Option Members)
      → Untouched (with_params b mws q req_id n method params)
  with_params-Untouched req_id n method none = search denial_rules
  with_params-Untouched req_id n method (some params) =
      with_handler-Untouched req_id n method params (Dict.get b.methods method) refl

  with_method-Untouched :
      (req_id : Json) (n : Bool) (body : Members) (method : Json)
      → Untouched (after_parse b mws q (with_method b req_id n body method))
  with_method-Untouched req_id n body (string method) =
      with_params-Untouched req_id n method (params_of (get body "params"))
  with_method-Untouched req_id n body null = search denial_rules
  with_method-Untouched req_id n body (boolean x) = search denial_rules
  with_method-Untouched req_id n body (number x) = search denial_rules
  with_method-Untouched req_id n body (array x) = search denial_rules
  with_method-Untouched req_id n body (object x) = search denial_rules

  parse_object-Untouched :
      (req_id : Json) (n : Bool) (body : Members)
      → Untouched (after_parse b mws q (parse_object b req_id n body))
  parse_object-Untouched req_id n body = elim (Bool-cases (is_version (get body "jsonrpc"))) [
    | inl e ↦ rw e (with_method-Untouched req_id n body (get body "method"))
    | inr e ↦ rw e (search denial_rules)
  ]

  pub jsonrpc_endpoint-Untouched : (body : Option Json) → Untouched (jsonrpc_endpoint b mws q body)
  unfolding jsonrpc_endpoint parse_body
  jsonrpc_endpoint-Untouched none = search denial_rules
  jsonrpc_endpoint-Untouched (some null) = search denial_rules
  jsonrpc_endpoint-Untouched (some (boolean x)) = search denial_rules
  jsonrpc_endpoint-Untouched (some (number x)) = search denial_rules
  jsonrpc_endpoint-Untouched (some (string x)) = search denial_rules
  jsonrpc_endpoint-Untouched (some (array x)) = search denial_rules
  jsonrpc_endpoint-Untouched (some (object body)) = parse_object-Untouched _ _ body
