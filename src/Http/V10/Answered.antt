-- ===== src/Http/V10/Answered.antt =====
-- jsonrpc_v10.py: each request is answered under its id.
use a2akit.Prelude.{String, ◌≡◌, refl, Option, none, some, List}
use a2akit.Middleware.{HttpRequest}
use a2akit.Wire.{Task, SendMessageRequest, TaskState}
use a2akit.Runtime.{World, Act}
use a2akit.Http.Json.{Json, Members, null, boolean, number, string, array, object}
use a2akit.Http.Envelope.{RequestEnvelope}
use a2akit.Http.Frames.{Frame}
use a2akit.Http.Service.{Service, Response, except_exception}
use a2akit.Http.Rpc.Table.{AllHandlers}
use a2akit.Http.Rpc.Answered.{IsReplying, jsonrpc_endpoint-Replies}
use a2akit.Http.Rpc.Replies.{response_id, request_id, Answers, Replies, reply_rules}
use a2akit.Http.Actions.{Opened, sent_stream, subscribed, with_id}
use a2akit.Http.V10.{
  with_message, mapped, methods, binding, endpoint, list_parsed, list_status, handle_send_message,
  handle_send_streaming_message, handle_get_task, handle_list_tasks, handle_cancel_task,
  handle_subscribe_to_task, handle_push_create, handle_push_get, handle_push_list,
  handle_push_delete, handle_get_extended_card,
}
use a2akit.Http.V10.Bodies.{got_task, card_answer, card_from}

got_task-id : (j : Json) (k : String) (t : Option Task) → response_id (got_task j k t) ≡ some j
got_task-id j k none = refl
got_task-id j k (some t) = refl

card_answer-id : (j : Json) (c : Option String) → response_id (card_answer j c) ≡ some j
card_answer-id j none = refl
card_answer-id j (some c) = refl

module _ (s : Service) (j : Json) where
  mapped-Replies : (m : Act Response) → Replies (some j) m → Replies (some j) (mapped s j m)
  unfolding except_exception
  mapped-Replies m h = search reply_rules

  with_message-Replies :
      (name : String) (f : SendMessageRequest → Act Response) (p : Option SendMessageRequest)
      → ((p : SendMessageRequest) → Replies (some j) (f p))
      → Replies (some j) (with_message s j name f p)
  with_message-Replies name f none h = search reply_rules
  with_message-Replies name f (some p) h = search reply_rules

  pub sent_stream-Replies :
      (render : Opened → List Frame) (q : HttpRequest) (env : RequestEnvelope)
      → Replies (some j) (sent_stream s render q j env)
  unfolding sent_stream
  sent_stream-Replies render q env = search reply_rules

  pub subscribed-Replies :
      (render : Opened → List Frame) (q : HttpRequest) (env : RequestEnvelope) (k : Json)
      → Replies (some j) (subscribed s render q j env k)
  unfolding subscribed
  subscribed-Replies render q env k = search reply_rules

  send_message-Replies :
      (q : HttpRequest) (params : Members) → Replies (some j) (handle_send_message s q j params)
  unfolding handle_send_message
  send_message-Replies q params = search (reply_rules, mapped-Replies, with_message-Replies)

  send_streaming-Replies :
      (q : HttpRequest) (params : Members)
      → Replies (some j) (handle_send_streaming_message s q j params)
  unfolding handle_send_streaming_message
  send_streaming-Replies q params =
      search (reply_rules, mapped-Replies, with_message-Replies, sent_stream-Replies)

  pub with_id-Replies :
      (k : Json) (f : String → Act Response)
      → ((i : String) → Replies (some j) (f i))
      → Replies (some j) (with_id s k f)
  unfolding with_id
  with_id-Replies (string i) f h = h i
  with_id-Replies null f h = search reply_rules
  with_id-Replies (boolean b) f h = search reply_rules
  with_id-Replies (number n) f h = search reply_rules
  with_id-Replies (array xs) f h = search reply_rules
  with_id-Replies (object d) f h = search reply_rules

  get_task-Replies : (params : Members) → Replies (some j) (handle_get_task s j params)
  unfolding handle_get_task
  get_task-Replies params =
      search (reply_rules, mapped-Replies, with_id-Replies, got_task-id) depth 9

  list_parsed-Replies :
      (params : Members) (raw : Json) (state : Option TaskState)
      → Replies (some j) (list_parsed s j params raw state)
  list_parsed-Replies params raw none = search reply_rules
  list_parsed-Replies params raw (some state) = search reply_rules

  list_status-Replies :
      (params : Members) (raw : Json) → Replies (some j) (list_status s j params raw)
  list_status-Replies params null = search reply_rules
  list_status-Replies params (boolean b) = search list_parsed-Replies
  list_status-Replies params (number n) = search list_parsed-Replies
  list_status-Replies params (string t) = search list_parsed-Replies
  list_status-Replies params (array xs) = search list_parsed-Replies
  list_status-Replies params (object d) = search list_parsed-Replies

  list_tasks-Replies : (params : Members) → Replies (some j) (handle_list_tasks s j params)
  unfolding handle_list_tasks
  list_tasks-Replies params = search (reply_rules, mapped-Replies, list_status-Replies)

  cancel_task-Replies : (params : Members) → Replies (some j) (handle_cancel_task s j params)
  unfolding handle_cancel_task
  cancel_task-Replies params = search (reply_rules, mapped-Replies)

  subscribe-Replies :
      (q : HttpRequest) (params : Members)
      → Replies (some j) (handle_subscribe_to_task s q j params)
  unfolding handle_subscribe_to_task
  subscribe-Replies q params = search (reply_rules, mapped-Replies, subscribed-Replies)

  push_create-Replies : (params : Members) → Replies (some j) (handle_push_create s j params)
  unfolding handle_push_create
  push_create-Replies params = search (reply_rules, mapped-Replies)

  push_get-Replies : (params : Members) → Replies (some j) (handle_push_get s j params)
  unfolding handle_push_get
  push_get-Replies params = search (reply_rules, mapped-Replies)

  push_list-Replies : (params : Members) → Replies (some j) (handle_push_list s j params)
  unfolding handle_push_list
  push_list-Replies params = search (reply_rules, mapped-Replies)

  push_delete-Replies : (params : Members) → Replies (some j) (handle_push_delete s j params)
  unfolding handle_push_delete
  push_delete-Replies params = search (reply_rules, mapped-Replies) depth 9

  card_from-Replies :
      (q : HttpRequest) (p : Option (HttpRequest → Option String))
      → Replies (some j) (card_from j q p)
  card_from-Replies q none = search reply_rules
  card_from-Replies q (some provider) = search (reply_rules, card_answer-id)

  extended_card-Replies : (q : HttpRequest) → Replies (some j) (handle_get_extended_card s q j)
  unfolding handle_get_extended_card
  extended_card-Replies q = card_from-Replies q s.extended_card_provider

methods-Replying : (s : Service) → AllHandlers IsReplying (methods s)
unfolding methods
methods-Replying s = (
  λ q j params. send_message-Replies s j q params,
  (
    λ q j params. send_streaming-Replies s j q params,
    (
      λ q j params. get_task-Replies s j params,
      (
        λ q j params. list_tasks-Replies s j params,
        (
          λ q j params. cancel_task-Replies s j params,
          (
            λ q j params. subscribe-Replies s j q params,
            (
              λ q j params. push_create-Replies s j params,
              (
                λ q j params. push_get-Replies s j params,
                (
                  λ q j params. push_list-Replies s j params,
                  (
                    λ q j params. push_delete-Replies s j params,
                    (
                      λ q j params. extended_card-Replies s j q,
                      (λ q j params. search reply_rules, tt),
                    ),
                  ),
                ),
              ),
            ),
          ),
        ),
      ),
    ),
  ),
)

-- Whatever the body of a request to the JSON-RPC endpoint of v1.0 is, the middleware, and what
-- other writers do meanwhile: the endpoint raises, or its answer carries the id of the request, and
-- null where the body is no object; a notification, an object without an id, is answered with 204.
pub endpoint-Answers :
    (s : Service) (q : HttpRequest) (body : Option Json) (w : World)
    → Answers (request_id body) (endpoint s q body w).0
unfolding endpoint binding
endpoint-Answers s q body w =
    (jsonrpc_endpoint-Replies (binding s) (methods-Replying s) s.middlewares q body).holds w
