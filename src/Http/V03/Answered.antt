-- ===== src/Http/V03/Answered.antt =====
-- jsonrpc.py: each request is answered under its id.
use a2akit.Prelude.{String, ◌≡◌, refl, Bool, Option, none, some}
use a2akit.Middleware.{HttpRequest}
use a2akit.Storage.Listing.{ListTasksResult}
use a2akit.Wire.{StreamEvent, Task, SendMessageRequest, TaskState}
use a2akit.Runtime.{World, Act}
use a2akit.Http.Json.{Json, Members, null, boolean, number, string, array, object}
use a2akit.Http.Service.{Service, Response, except_exception}
use a2akit.Http.Rpc.Table.{AllHandlers}
use a2akit.Http.Rpc.Answered.{IsReplying, jsonrpc_endpoint-Replies}
use a2akit.Http.Rpc.Replies.{response_id, request_id, Answers, Replies, reply_rules}
use a2akit.Http.V10.Answered.{sent_stream-Replies, subscribed-Replies, with_id-Replies}
use a2akit.Http.V03.{
  got_task, listed, with_message, mapped, methods, binding, endpoint, list_parsed, list_status,
  handle_message_send, handle_message_send_stream, handle_tasks_get, handle_tasks_list,
  handle_tasks_cancel, handle_tasks_resubscribe, handle_push_set, handle_push_get, handle_push_list,
  handle_push_delete,
}
use a2akit.Http.V03.Bodies.{got_card, card_from}

got_card-id : (j : Json) (c : Option String) → response_id (got_card j c) ≡ some j
got_card-id j none = refl
got_card-id j (some c) = refl

module _ (s : Service) (c : StreamEvent → Bool) (j : Json) where
  got_task-id : (t : Option Task) → response_id (got_task s c j t) ≡ some j
  got_task-id none = refl
  got_task-id (some t) = refl

  listed-Replies : (r : ListTasksResult) → Replies (some j) (listed s c j r)
  listed-Replies r = search reply_rules

  mapped-Replies : (m : Act Response) → Replies (some j) m → Replies (some j) (mapped s c j m)
  unfolding except_exception
  mapped-Replies m h = search reply_rules

  with_message-Replies :
      (name : String) (f : SendMessageRequest → Act Response) (p : Option SendMessageRequest)
      → ((p : SendMessageRequest) → Replies (some j) (f p))
      → Replies (some j) (with_message s c j name f p)
  with_message-Replies name f none h = search reply_rules
  with_message-Replies name f (some p) h = search reply_rules

  send_message-Replies :
      (q : HttpRequest) (params : Members) → Replies (some j) (handle_message_send s c q j params)
  unfolding handle_message_send
  send_message-Replies q params = search (reply_rules, mapped-Replies, with_message-Replies)

  send_streaming-Replies :
      (q : HttpRequest) (params : Members)
      → Replies (some j) (handle_message_send_stream s c q j params)
  unfolding handle_message_send_stream
  send_streaming-Replies q params =
      search (reply_rules, mapped-Replies, with_message-Replies, sent_stream-Replies s j)

  get_task-Replies : (params : Members) → Replies (some j) (handle_tasks_get s c j params)
  unfolding handle_tasks_get
  get_task-Replies params =
      search (reply_rules, mapped-Replies, with_id-Replies s j, got_task-id) depth 9

  list_parsed-Replies :
      (params : Members) (raw : Json) (state : Option TaskState)
      → Replies (some j) (list_parsed s c j params raw state)
  list_parsed-Replies params raw none = search reply_rules
  list_parsed-Replies params raw (some state) = search reply_rules

  list_status-Replies :
      (params : Members) (raw : Json) → Replies (some j) (list_status s c j params raw)
  list_status-Replies params null = search reply_rules
  list_status-Replies params (boolean b) = search list_parsed-Replies
  list_status-Replies params (number n) = search list_parsed-Replies
  list_status-Replies params (string t) = search list_parsed-Replies
  list_status-Replies params (array xs) = search list_parsed-Replies
  list_status-Replies params (object d) = search list_parsed-Replies

  list_tasks-Replies : (params : Members) → Replies (some j) (handle_tasks_list s c j params)
  unfolding handle_tasks_list
  list_tasks-Replies params = search (reply_rules, mapped-Replies, list_status-Replies) depth 7

  cancel_task-Replies : (params : Members) → Replies (some j) (handle_tasks_cancel s c j params)
  unfolding handle_tasks_cancel
  cancel_task-Replies params = search (reply_rules, mapped-Replies)

  subscribe-Replies :
      (q : HttpRequest) (params : Members)
      → Replies (some j) (handle_tasks_resubscribe s c q j params)
  unfolding handle_tasks_resubscribe
  subscribe-Replies q params = search (reply_rules, mapped-Replies, subscribed-Replies s j)

  push_create-Replies : (params : Members) → Replies (some j) (handle_push_set s c j params)
  unfolding handle_push_set
  push_create-Replies params = search (reply_rules, mapped-Replies) depth 9

  push_get-Replies : (params : Members) → Replies (some j) (handle_push_get s c j params)
  unfolding handle_push_get
  push_get-Replies params = search (reply_rules, mapped-Replies)

  push_list-Replies : (params : Members) → Replies (some j) (handle_push_list s c j params)
  unfolding handle_push_list
  push_list-Replies params = search (reply_rules, mapped-Replies)

  push_delete-Replies : (params : Members) → Replies (some j) (handle_push_delete s c j params)
  unfolding handle_push_delete
  push_delete-Replies params = search (reply_rules, mapped-Replies) depth 9

  card_from-Replies :
      (q : HttpRequest) (p : Option (HttpRequest → Option String))
      → Replies (some j) (card_from j q p)
  card_from-Replies q none = search reply_rules
  card_from-Replies q (some provider) = search (reply_rules, got_card-id)

methods-Replying : (s : Service) (c : StreamEvent → Bool) → AllHandlers IsReplying (methods s c)
unfolding methods
methods-Replying s c = (
  λ q j params. send_message-Replies s c j q params,
  (
    λ q j params. send_streaming-Replies s c j q params,
    (
      λ q j params. send_streaming-Replies s c j q params,
      (
        λ q j params. get_task-Replies s c j params,
        (
          λ q j params. list_tasks-Replies s c j params,
          (
            λ q j params. cancel_task-Replies s c j params,
            (
              λ q j params. subscribe-Replies s c j q params,
              (
                λ q j params. push_create-Replies s c j params,
                (
                  λ q j params. push_get-Replies s c j params,
                  (
                    λ q j params. push_list-Replies s c j params,
                    (
                      λ q j params. push_delete-Replies s c j params,
                      (
                        λ q j params. card_from-Replies s c j q s.extended_card_provider,
                        (λ q j params. search reply_rules, tt),
                      ),
                    ),
                  ),
                ),
              ),
            ),
          ),
        ),
      ),
    ),
  ),
)

-- Whatever the body of a request to the JSON-RPC endpoint of v0.3 is, the middleware, and what
-- other writers do meanwhile: the endpoint raises, or its answer carries the id of the request, and
-- null where the body is no object; a notification, an object without an id, is answered with 204.
pub v03_endpoint-Answers :
    (s : Service) (c : StreamEvent → Bool) (q : HttpRequest) (body : Option Json) (w : World)
    → Answers (request_id body) (endpoint s c q body w).0
unfolding endpoint binding
v03_endpoint-Answers s c q body w =
    (jsonrpc_endpoint-Replies (binding s c) (methods-Replying s c) s.middlewares q body).holds w
