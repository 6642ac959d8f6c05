-- ===== src/Http/V10/Refused.antt =====
-- jsonrpc_v10.py: what a request gets that a middleware refuses.
use a2akit.Prelude.{List, String, ◌≡◌, refl, true, false, Option, none, some, [], is_some, inl, inr}
use a2akit.Wire.{SendMessageRequest}
use a2akit.Errors.{Error}
use a2akit.Middleware.{HttpRequest}
use a2akit.Runtime.{World, Act}
use a2akit.Http.Json.{Json, Members}
use a2akit.Http.Envelope.{RequestEnvelope, Begun, begin}
use a2akit.Http.Service.{Service, Response, except_exception}
use a2akit.Http.Actions.{Opened, get_tm, opened, run_sent, sent, sent_stream, subscribed}
use a2akit.Http.Frames.{Frame}
use a2akit.Http.Rpc.Table.{AllHandlers}
use a2akit.Http.Rpc.Denied.{Untouched, Stops, check-Stops, reveals, stop_rules, denial_rules}
use a2akit.Http.Rpc.Refused.{Refuses, IsGuarded, jsonrpc_endpoint-Untouched}
use a2akit.Manager.Messages.{Answer}
use a2akit.Http.V10.{
  with_message, mapped, methods, binding, endpoint, handle_send_message,
  handle_send_streaming_message, handle_subscribe_to_task,
}

opened-Stops :
    (begun : Begun) (m : Act Opened) (raised : Option Error)
    → is_some raised ≡ true
    → Stops (opened begun m raised)
unfolding opened
opened-Stops begun m none h = cc
opened-Stops begun m (some e) h = search stop_rules

run_sent-Stops :
    (begun : Begun) (m : Act Answer) (raised : Option Error)
    → is_some raised ≡ true
    → Stops (run_sent begun m raised)
unfolding run_sent
run_sent-Stops begun m none h = cc
run_sent-Stops begun m (some e) h = search stop_rules

module _ (s : Service) (q : HttpRequest) (refuses : Refuses q s.middlewares) where
  pub sent-Stops : (env : RequestEnvelope) → Stops (sent s q env)
  unfolding sent get_tm
  sent-Stops env =
      check-Stops s.has_task_manager _ _
        (run_sent-Stops (begin q env [] s.middlewares) _ _ (refuses env))

  pub sent_stream-Stops :
      (render : Opened → List Frame) (j : Json) (env : RequestEnvelope)
      → Stops (sent_stream s render q j env)
  unfolding sent_stream get_tm
  sent_stream-Stops render j env =
      check-Stops s.has_task_manager _ _ (search (stop_rules, opened-Stops, refuses env))

  pub subscribed-Stops :
      (render : Opened → List Frame) (j : Json) (env : RequestEnvelope) (k : Json)
      → Stops (subscribed s render q j env k)
  unfolding subscribed
  subscribed-Stops render j env k = search (stop_rules, opened-Stops, refuses env)

  mapped-Untouched : (j : Json) (m : Act Response) → Stops m → Untouched (mapped s j m)
  unfolding except_exception
  mapped-Untouched j m h = search denial_rules

  with_message-Untouched :
      (j : Json) (name : String) (f : SendMessageRequest → Act Response)
      (p : Option SendMessageRequest)
      → ((p : SendMessageRequest) → Untouched (f p))
      → Untouched (with_message s j name f p)
  with_message-Untouched j name f none h = search denial_rules
  with_message-Untouched j name f (some p) h = search denial_rules

  send_message-Untouched :
      (j : Json) (params : Members) → Untouched (handle_send_message s q j params)
  unfolding handle_send_message
  send_message-Untouched j params =
      search (with_message-Untouched, mapped-Untouched, stop_rules, sent-Stops)

  send_streaming-Untouched :
      (j : Json) (params : Members) → Untouched (handle_send_streaming_message s q j params)
  unfolding handle_send_streaming_message
  send_streaming-Untouched j params =
      search (denial_rules, with_message-Untouched, mapped-Untouched, sent_stream-Stops)

  subscribe-Untouched :
      (j : Json) (params : Members) → Untouched (handle_subscribe_to_task s q j params)
  unfolding handle_subscribe_to_task
  subscribe-Untouched j params = search (denial_rules, mapped-Untouched, subscribed-Stops)

  methods-Guarded : AllHandlers (IsGuarded (binding s) q) (methods s)
  unfolding methods binding
  methods-Guarded = (
    inr (λ j params. send_message-Untouched j params),
    (
      inr (λ j params. send_streaming-Untouched j params),
      (
        inl refl,
        (
          inl refl,
          (
            inl refl,
            (
              inr (λ j params. subscribe-Untouched j params),
              (
                inl refl,
                (
                  inl refl,
                  (inl refl, (inl refl, (inl refl, (inr (λ j params. search denial_rules), tt)))),
                ),
              ),
            ),
          ),
        ),
      ),
    ),
  )

-- A request to the JSON-RPC endpoint of v1.0 that a middleware refuses, whatever its body is:
-- nothing changes, and the answer, if there is one, holds no result and no stream, but for that of
-- the health method.
pub endpoint-refused :
    (s : Service) (q : HttpRequest) (body : Option Json) (w : World)
    → Refuses q s.middlewares
    → ((endpoint s q body w).1 ≡ w) × (reveals (endpoint s q body w).0 ≡ false)
unfolding endpoint binding
endpoint-refused s q body w refuses =
    (jsonrpc_endpoint-Untouched (binding s) q s.middlewares refuses (methods-Guarded s q refuses)
        body).holds
      w
