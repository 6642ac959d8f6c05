-- ===== src/Http/Rest/Message.antt =====
-- endpoints_v10.py: the handler of `message:send`, from its envelope to the body of the response.
use a2akit.Prelude.{Option, none, some, [], ◌∷◌, List, if◌then◌else◌}
use a2akit.Wire.{SendMessageRequest}
use a2akit.Errors.{Error, other_error, is_cancellation}
use a2akit.Middleware.{HttpRequest}
use a2akit.Manager.Messages.{Answer, replied, answered, send_message}
use a2akit.Runtime.{Act, ◌>>=◌, pure, raise, try_except}
use a2akit.Http.Envelope.{RequestEnvelope, A2aMiddleware, begin, finish}
use a2akit.Http.Frames.{message_payload, task_payload, sanitize_task_v10}
use a2akit.Http.Service.{Service, wrapped}
use a2akit.Http.V10.Bodies.{tenant_of}
use a2akit.Http.Rest.Bodies.{RestResponse, json_response}

-- RequestEnvelope(params=params, tenant=params.tenant or None), with the version in its context
abbrev pub message_envelope : SendMessageRequest → RequestEnvelope
message_envelope p = record {
  params = some p;
  tenant = tenant_of p.tenant;
  context = ("a2a_version", "1.0") ∷ [];
  a2a_error = none;
}

-- except Exception as exc: ...; raise
unfoldable pub surfaced : RequestEnvelope → List A2aMiddleware → Error → Act Answer
surfaced env started e =
    if is_cancellation e
    then raise e
    else elim (finish (record env { a2a_error = some e }) none started) [
      | none ↦ raise e
      | some e' ↦ raise e'
    ]

-- for mw in reversed(started): await mw.after_dispatch(envelope, result)
unfoldable pub concluded : RequestEnvelope → List A2aMiddleware → Answer → Act Answer
concluded env started result = elim (finish env (some result) started) [
  | none ↦ pure result
  | some e ↦ raise e
]

-- The response's body: a task or a direct reply.
abbrev pub message_response : Answer → RestResponse
message_response (answered t) = json_response (wrapped (task_payload (sanitize_task_v10 t)))
message_response (replied m) = json_response (wrapped (message_payload m))

module _ (s : Service) where
  -- The body of the `try`: what the first loop raised, or the call.
  unfoldable pub dispatched_message : Option Error → Option SendMessageRequest → Act Answer
  dispatched_message (some e) params = raise e
  dispatched_message none none = raise other_error
  dispatched_message none (some p) = send_message s.input_modes p s.stream s.live

  unfoldable pub run_message : HttpRequest → SendMessageRequest → Act Answer
  run_message q p =
      let begun = begin q (message_envelope p) [] s.middlewares in
      do
        result ←
            try_except (dispatched_message begun.raised begun.envelope.params)
              (surfaced begun.envelope begun.started)
        concluded begun.envelope begun.started result
