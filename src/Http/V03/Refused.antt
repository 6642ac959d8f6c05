-- ===== src/Http/V03/Refused.antt =====
-- jsonrpc.py: what a request gets that a middleware refuses.
use a2akit.Prelude.{String, ◌≡◌, refl, Bool, false, Option, none, some, inl, inr}
use a2akit.Wire.{StreamEvent, SendMessageRequest}
use a2akit.Middleware.{HttpRequest}
use a2akit.Runtime.{World, Act}
use a2akit.Http.Json.{Json, Members}
use a2akit.Http.Service.{Service, Response, except_exception}
use a2akit.Http.Rpc.Table.{AllHandlers}
use a2akit.Http.Rpc.Denied.{Untouched, Stops, reveals, stop_rules, denial_rules}
use a2akit.Http.Rpc.Refused.{Refuses, IsGuarded, jsonrpc_endpoint-Untouched}
use a2akit.Http.V10.Refused.{sent-Stops, sent_stream-Stops, subscribed-Stops}
use a2akit.Http.V03.{
  with_message, mapped, methods, binding, endpoint, handle_message_send, handle_message_send_stream,
  handle_tasks_resubscribe,
}

module _ (s : Service) (c : StreamEvent → Bool) (q : HttpRequest)
    (refuses : Refuses q s.middlewares) where
  mapped-Untouched : (j : Json) (m : Act Response) → Stops m → Untouched (mapped s c j m)
  unfolding except_exception
  mapped-Untouched j m h = search denial_rules

  with_message-Untouched :
      (j : Json) (name : String) (f : SendMessageRequest → Act Response)
      (p : Option SendMessageRequest)
      → ((p : SendMessageRequest) → Untouched (f p))
      → Untouched (with_message s c j name f p)
  with_message-Untouched j name f none h = search denial_rules
  with_message-Untouched j name f (some p) h = search denial_rules

  send_message-Untouched :
      (j : Json) (params : Members) → Untouched (handle_message_send s c q j params)
  unfolding handle_message_send
  send_message-Untouched j params =
      search (with_message-Untouched, mapped-Untouched, stop_rules, sent-Stops s q refuses)

  send_streaming-Untouched :
      (j : Json) (params : Members) → Untouched (handle_message_send_stream s c q j params)
  unfolding handle_message_send_stream
  send_streaming-Untouched j params =
      search (denial_rules, with_message-Untouched, mapped-Untouched, sent_stream-Stops s q refuses)

  subscribe-Untouched :
      (j : Json) (params : Members) → Untouched (handle_tasks_resubscribe s c q j params)
  unfolding handle_tasks_resubscribe
  subscribe-Untouched j params =
      search (denial_rules, mapped-Untouched, subscribed-Stops s q refuses)

  methods-Guarded : AllHandlers (IsGuarded (binding s c) q) (methods s c)
  unfolding methods binding
  methods-Guarded = (
    inr (λ j params. send_message-Untouched j params),
    (
      inr (λ j params. send_streaming-Untouched j params),
      (
        inr (λ j params. send_streaming-Untouched j params),
        (
          inl refl,
          (
            inl refl,
            (
              inl refl,
              (
                inr (λ j params. subscribe-Untouched j params),
                (
                  inl refl,
                  (
                    inl refl,
                    (inl refl, (inl refl, (inl refl, (inr (λ j params. search denial_rules), tt)))),
                  ),
                ),
              ),
            ),
          ),
        ),
      ),
    ),
  )

-- A request to the JSON-RPC endpoint of v0.3 that a middleware refuses, whatever its body is:
-- nothing changes, and the answer, if there is one, holds no result and no stream, but for that of
-- the health method.
pub v03_endpoint-refused :
    (s : Service) (c : StreamEvent → Bool) (q : HttpRequest) (body : Option Json) (w : World)
    → Refuses q s.middlewares
    → ((endpoint s c q body w).1 ≡ w) × (reveals (endpoint s c q body w).0 ≡ false)
unfolding endpoint binding
v03_endpoint-refused s c q body w refuses =
    (jsonrpc_endpoint-Untouched (binding s c) q s.middlewares refuses
        (methods-Guarded s c q refuses) body).holds
      w
