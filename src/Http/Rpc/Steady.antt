-- ===== src/Http/Rpc/Steady.antt =====
-- What every handler keeps, the endpoint keeps: an invariant of the world.
use a2akit.Prelude.{String, ◌≡◌, refl, Bool, Option, none, some, List, Bool-cases, inl, inr}
use a2akit.Dict
use a2akit.Errors.{Error}
use a2akit.Middleware.{HttpRequest}
use a2akit.Runtime.{World, Act}
use a2akit.Runtime.Steady.{Steady, steady_rules}
use a2akit.Http.Json.{Json, null, boolean, number, string, array, object, Members, get}
use a2akit.Http.Envelope.{A2aMiddleware, Begun, finally_finish, ended_with, roll_back}
use a2akit.Http.Service.{Response}
use a2akit.Http.Rpc.{
  Binding, Handler, parse_body, guarded, dispatched, with_handler, with_params, with_method,
  parse_object, is_version, after_parse, jsonrpc_endpoint, params_of,
}
use a2akit.Http.Rpc.Table.{AllHandlers, get-AllHandlers}

module _ {A : Type 0} {P : World → Type 0} where
  pub finally-Steady : (begun : Begun) (m : Act A) → Steady P m → Steady P (finally_finish begun m)
  unfolding finally_finish
  finally-Steady begun m h = record { holds = h.holds }

  pub ended_with-Steady : (o : Option Error) (m : Act A) → Steady P m → Steady P (ended_with o m)
  ended_with-Steady none m h = h
  ended_with-Steady (some e) m h = search steady_rules

  pub roll_back-Steady : (begun : Begun) (e : Error) → Steady P (roll_back {A = A} begun e)
  unfolding roll_back
  roll_back-Steady begun e = search (ended_with-Steady, steady_rules)

module _ (P : World → Type 0) where
  abbrev pub Keeps : String → Handler → Type 0
  Keeps name h = (q : HttpRequest) (req_id : Json) (params : Members) → Steady P (h q req_id params)

module _ (b : Binding) (P : World → Type 0) (all : AllHandlers (Keeps P) b.methods) where
  guarded-Steady :
      (begun : Begun) (n : Bool) (req_id : Json) (m : Act Response) (raised : Option Error)
      → Steady P m
      → Steady P (guarded b begun n req_id m raised)
  unfolding guarded
  guarded-Steady begun n req_id m none h = search (steady_rules, finally-Steady)
  guarded-Steady begun n req_id m (some e) h = search (steady_rules, finally-Steady)

  dispatched-Steady :
      (mws : List A2aMiddleware) (q : HttpRequest) (req_id : Json) (n : Bool) (method : String)
      (m : Act Response)
      → Steady P m
      → Steady P (dispatched b mws q req_id n method m)
  unfolding dispatched
  dispatched-Steady mws q req_id n method m h = search (steady_rules, guarded-Steady)

  with_handler-Steady :
      (mws : List A2aMiddleware) (q : HttpRequest) (req_id : Json) (n : Bool) (method : String)
      (params : Members) (h : Option Handler)
      → Dict.get b.methods method ≡ h
      → Steady P (with_handler b mws q req_id n method params h)
  with_handler-Steady mws q req_id n method params none found = search steady_rules
  with_handler-Steady mws q req_id n method params (some h) found =
      let kept = get-AllHandlers (Keeps P) b.methods method h all found q req_id params in
      search (steady_rules, dispatched-Steady)

  with_params-Steady :
      (mws : List A2aMiddleware) (q : HttpRequest) (req_id : Json) (n : Bool) (method : String)
      (params : Option Members)
      → Steady P (with_params b mws q req_id n method params)
  with_params-Steady mws q req_id n method none = search steady_rules
  with_params-Steady mws q req_id n method (some params) =
      with_handler-Steady mws q req_id n method params (Dict.get b.methods method) refl

  with_method-Steady :
      (mws : List A2aMiddleware) (q : HttpRequest) (req_id : Json) (n : Bool) (body : Members)
      (method : Json)
      → Steady P (after_parse b mws q (with_method b req_id n body method))
  with_method-Steady mws q req_id n body (string method) =
      with_params-Steady mws q req_id n method (params_of (get body "params"))
  with_method-Steady mws q req_id n body null = search steady_rules
  with_method-Steady mws q req_id n body (boolean x) = search steady_rules
  with_method-Steady mws q req_id n body (number x) = search steady_rules
  with_method-Steady mws q req_id n body (array x) = search steady_rules
  with_method-Steady mws q req_id n body (object x) = search steady_rules

  parse_object-Steady :
      (mws : List A2aMiddleware) (q : HttpRequest) (req_id : Json) (n : Bool) (body : Members)
      → Steady P (after_parse b mws q (parse_object b req_id n body))
  parse_object-Steady mws q req_id n body = elim (Bool-cases (is_version (get body "jsonrpc"))) [
    | inl e ↦ rw e (with_method-Steady mws q req_id n body (get body "method"))
    | inr e ↦ rw e (search steady_rules)
  ]

  pub jsonrpc_endpoint-Steady :
      (mws : List A2aMiddleware) (q : HttpRequest) (body : Option Json)
      → Steady P (jsonrpc_endpoint b mws q body)
  unfolding jsonrpc_endpoint parse_body
  jsonrpc_endpoint-Steady mws q none = search steady_rules
  jsonrpc_endpoint-Steady mws q (some null) = search steady_rules
  jsonrpc_endpoint-Steady mws q (some (boolean x)) = search steady_rules
  jsonrpc_endpoint-Steady mws q (some (number x)) = search steady_rules
  jsonrpc_endpoint-Steady mws q (some (string x)) = search steady_rules
  jsonrpc_endpoint-Steady mws q (some (array x)) = search steady_rules
  jsonrpc_endpoint-Steady mws q (some (object body)) = parse_object-Steady mws q _ _ body
