-- ===== src/Http/Rest/Agrees.antt =====
-- REST and JSON-RPC of v1.0 do the same.
use a2akit.Prelude.{
  ◌≡◌, ◌∙◌, ap, sym, refl, Bool, true, false, Option, none, some, [], Bool-cases, Option-cases, inl,
  inr, if◌then◌else◌,
}
use a2akit.Wire.{SendMessageRequest}
use a2akit.Errors.{Error, Result, ok, err, is_cancellation, other_error, runtime_error}
use a2akit.Middleware.{HttpRequest}
use a2akit.Runtime.{World, Act, pure, raise, try_except, handle, resume, ◌>>=◌}
use a2akit.Http.Json.{Json, Members}
use a2akit.Http.Service.{
  Service, Payload, Response, no_content, failed, succeeded, except_exception, unless_cancelled,
}
use a2akit.Http.Envelope.{Begun, begin, finish, ended_with, roll_back}
use a2akit.Http.Actions.{lacks_message_id, get_tm, deliver, pass_or_roll_back, run_sent, sent}
use a2akit.Manager.Messages.{Answer, replied, answered, send_message}
use a2akit.Http.V10.{rpc_error, mapped, handle_send_message}
use a2akit.Http.V10.Bodies.{send_envelope, send_payload}
use a2akit.Http.Rest.{message_send}
use a2akit.Http.Rest.Message.{
  surfaced, concluded, message_response, dispatched_message, run_message,
}
use a2akit.Http.Rest.Bodies.{RestResponse, json_response}

module _ (s : Service) (req_id : Json) where
  -- The answer of JSON-RPC that says what one of REST says.
  abbrev pub as_rpc : Result RestResponse → Result Response
  as_rpc (ok (json_response v)) = ok (succeeded req_id v)
  as_rpc (ok _) = ok no_content
  as_rpc (err e) = if is_cancellation e then err e else ok (failed req_id (rpc_error s e))

  answered_error :
      (e : Error) (w : World)
      → unless_cancelled (λ x. pure (failed req_id (rpc_error s x))) e w ≡ (as_rpc (err e), w)
  unfolding pure raise
  answered_error e w = elim (Bool-cases (is_cancellation e)) [
    | inl c ↦ rw c refl
    | inr c ↦ rw c refl
  ]

  module _ {A : Type 0} (f : A → Payload) where
    resumed :
        (r : Result A) (w : World)
        → (let q = resume r (λ a. pure (succeeded req_id (f a))) w in
            handle q.0 (unless_cancelled (λ x. pure (failed req_id (rpc_error s x)))) q.1)
          ≡ (let q = resume r (λ a. pure (json_response (f a))) w in (as_rpc q.0, q.1))
    unfolding pure
    resumed (ok a) w = refl
    resumed (err e) w = answered_error e w

    -- A call, its result as the answer, under `try: ... except Exception`, and without.
    mapped_rest :
        (m : Act A) (w : World)
        → mapped s req_id (m >>= λ a. pure (succeeded req_id (f a))) w
          ≡ (let q = (m >>= λ a. pure (json_response (f a))) w in (as_rpc q.0, q.1))
    unfolding except_exception try_except ◌>>=◌
    mapped_rest m w = resumed (m w).0 (m w).1

-- The pipelines of jsonrpc_v10.py and of endpoints_v10.py, each as its handler writes it.
module _ (s : Service) (b : Begun) where
  run_agrees :
      (r : Result Answer) (w : World)
      → (let o = handle r (pass_or_roll_back b) w in
          resume o.0 (λ a. ended_with (finish b.envelope (some a) b.started) (pure a)) o.1)
        ≡ (let o = handle r (surfaced b.envelope b.started) w in
            resume o.0 (concluded b.envelope b.started) o.1)
  unfolding roll_back surfaced concluded raise
  run_agrees (ok a) w = either_way (finish b.envelope (some a) b.started)
    where
      either_way :
          (r : Option Error)
          → ended_with r (pure a) w
            ≡ (elim r as (λ x. Act Answer) [ none ↦ pure a | some e ↦ raise e ]) w
      either_way none = refl
      either_way (some e) = refl
  run_agrees (err e) w = elim (Bool-cases (is_cancellation e)) [
    | inl c ↦ rw c (raised_agrees e w)
    | inr c ↦
        elim (Option-cases (finish (record b.envelope { a2a_error = some e }) none b.started)) [
          | inl n ↦ rw (c, n) (raised_agrees e w)
          | inr (x, n) ↦ rw (c, n) (raised_agrees x w)
        ]
  ]
    where
      raised_agrees :
          (e : Error) (w : World)
          → (let o = raise {A = Answer} e w in
              resume o.0 (λ a. ended_with (finish b.envelope (some a) b.started) (pure a)) o.1)
            ≡ (let o = raise {A = Answer} e w in resume o.0 (concluded b.envelope b.started) o.1)
      raised_agrees e w = refl

  ends_in :
      (e : Error) (w : World)
      → pass_or_roll_back b e w ≡ (
          let o = surfaced b.envelope b.started e w in
          resume o.0 (concluded b.envelope b.started) o.1)
  unfolding roll_back surfaced raise
  ends_in e w = elim (Bool-cases (is_cancellation e)) [
    | inl c ↦ rw c refl
    | inr c ↦
        elim (Option-cases (finish (record b.envelope { a2a_error = some e }) none b.started)) [
          | inl n ↦ rw (c, n) refl
          | inr (x, n) ↦ rw (c, n) refl
        ]
  ]

  pipelines_agree :
      (raised : Option Error) (p : Option SendMessageRequest) (w : World)
      → run_sent b (deliver s p) raised w
        ≡ (try_except (dispatched_message s raised p) (surfaced b.envelope b.started)
              >>= concluded b.envelope b.started)
            w
  unfolding run_sent dispatched_message try_except raise ◌>>=◌
  pipelines_agree (some e) p w = ends_in e w
  pipelines_agree none none w = run_agrees (err other_error) w
  pipelines_agree none (some p) w =
      let o = send_message s.input_modes p s.stream s.live w in run_agrees o.0 o.1

sent_agrees :
    (s : Service) (q : HttpRequest) (p : SendMessageRequest) (w : World)
    → s.has_task_manager ≡ true
    → sent s q (send_envelope p) w ≡ run_message s q p w
unfolding sent get_tm run_message pure ◌>>=◌ concluded
sent_agrees s q p w ready =
    let b = begin q (send_envelope p) [] s.middlewares in
    ap (λ o. resume o.0 (λ u. run_sent b (deliver s b.envelope.params) b.raised) o.1)
      (manager_found w s.has_task_manager ready)
    ∙ pipelines_agree s b b.raised b.envelope.params w
  where
    manager_found :
        (w : World) (b : Bool)
        → b ≡ true
        → (if b then pure tt else raise runtime_error) w ≡ (ok tt, w)
    manager_found w b e = rw e refl

-- The body of the response is the result of the JSON-RPC one.
same_body :
    (r : Result Answer) (w : World)
    → resume r (λ a. pure (json_response (send_payload a))) w
      ≡ resume r (λ a. pure (message_response a)) w
same_body (ok (replied m)) w = refl
same_body (ok (answered t)) w = refl
same_body (err e) w = refl

then_branch : (b : Bool) (m n : Act RestResponse) → b ≡ true → (if b then m else n) ≡ m
then_branch b m n e = rw e refl

bodies_agree :
    (s : Service) (q : HttpRequest) (p : SendMessageRequest) (w : World)
    → s.has_task_manager ≡ true
    → (sent s q (send_envelope p) >>= λ a. pure (json_response (send_payload a))) w
      ≡ (run_message s q p >>= λ a. pure (message_response a)) w
unfolding ◌>>=◌
bodies_agree s q p w ready =
    ap (λ o. resume o.0 (λ a. pure (json_response (send_payload a))) o.1)
      (sent_agrees s q p w ready)
    ∙ same_body (run_message s q p w).0 (run_message s q p w).1

-- On parameters that pydantic accepts, with a message id, and with a task manager: SendMessage of
-- JSON-RPC and the route /message:send of REST leave the same world, and the first answers with the
-- payload of the second, or, where that raises an exception, with its error; a cancellation leaves
-- both.
pub message_send_agrees :
    (s : Service) (q : HttpRequest) (req_id : Json) (params : Members) (p : SendMessageRequest)
    (w : World)
    → s.validators.send_params params ≡ some p
    → lacks_message_id s p ≡ false
    → s.has_task_manager ≡ true
    → handle_send_message s q req_id params w
      ≡ (as_rpc s req_id (message_send s q p w).0, (message_send s q p w).1)
unfolding handle_send_message message_send
message_send_agrees s q req_id params p w valid named ready =
    rw (valid, named)
      (mapped_rest s req_id send_payload (sent s q (send_envelope p)) w
        ∙ ap (λ o. (as_rpc s req_id o.0, o.1)) (bodies_agree s q p w ready)
        ∙ ap (λ m. (as_rpc s req_id (m w).0, (m w).1))
            (sym (then_branch s.has_task_manager _ _ ready)))
