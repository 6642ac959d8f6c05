-- ===== src/Http/V03/Settled.antt =====
-- jsonrpc.py: no request takes a task out of a terminal state.
use a2akit.Prelude.{String, ◌≡◌, Bool, true, Option, none, some}
use a2akit.Wire.{StreamEvent, SendMessageRequest, TaskState, is_terminal}
use a2akit.Middleware.{HttpRequest}
use a2akit.Storage.Listing.{ListTasksResult}
use a2akit.Runtime.{World, Act}
use a2akit.Runtime.Steady.{Steady, steady_rules}
use a2akit.Runtime.Settled.{IsSettled}
use a2akit.Http.Json.{Json, Members, null, boolean, number, string, array, object}
use a2akit.Http.Service.{Service, Response, except_exception}
use a2akit.Http.Rpc.Table.{AllHandlers}
use a2akit.Http.Rpc.Steady.{Keeps, jsonrpc_endpoint-Steady}
use a2akit.Http.Actions.Settled.{
  cancel_task-IsSettled, get_tm-IsSettled, sent-IsSettled, sent_stream-IsSettled, with_id-IsSettled,
  subscription-IsSettled, get_task-IsSettled, list_all-IsSettled, set_push_config-IsSettled,
  get_push_config-IsSettled, list_push_configs-IsSettled, delete_push_config-IsSettled,
}
use a2akit.Http.V10.Settled.{valid_query-IsSettled}
use a2akit.Http.V03.{
  with_message, mapped, listed, list_with, list_parsed, list_status, with_config_id,
  handle_message_send, handle_message_send_stream, handle_tasks_get, handle_tasks_list,
  handle_tasks_cancel, handle_tasks_resubscribe, handle_push_set, handle_push_get, handle_push_list,
  handle_push_delete, methods, binding, endpoint,
}
use a2akit.Http.V03.Bodies.{card_from}

module _ (k : String) (t : TaskState) (ended : is_terminal t ≡ true) (s : Service)
    (c : StreamEvent → Bool) (j : Json) where
  mapped-IsSettled :
      (m : Act Response) → Steady (IsSettled k t) m → Steady (IsSettled k t) (mapped s c j m)
  unfolding except_exception
  mapped-IsSettled m h = search steady_rules

  with_message-IsSettled :
      (name : String) (f : SendMessageRequest → Act Response) (p : Option SendMessageRequest)
      → ((p : SendMessageRequest) → Steady (IsSettled k t) (f p))
      → Steady (IsSettled k t) (with_message s c j name f p)
  with_message-IsSettled name f none h = search steady_rules
  with_message-IsSettled name f (some p) h = search steady_rules

  send_message-IsSettled :
      (q : HttpRequest) (params : Members)
      → Steady (IsSettled k t) (handle_message_send s c q j params)
  unfolding handle_message_send
  send_message-IsSettled q params =
      search (steady_rules, mapped-IsSettled, with_message-IsSettled, sent-IsSettled k t ended)
        depth 7

  send_streaming-IsSettled :
      (q : HttpRequest) (params : Members)
      → Steady (IsSettled k t) (handle_message_send_stream s c q j params)
  unfolding handle_message_send_stream
  send_streaming-IsSettled q params =
      search
        (steady_rules, mapped-IsSettled, with_message-IsSettled, sent_stream-IsSettled k t ended)
        depth 7

  get_task-IsSettled_lem :
      (params : Members) → Steady (IsSettled k t) (handle_tasks_get s c j params)
  unfolding handle_tasks_get
  get_task-IsSettled_lem params =
      search
        (
          steady_rules,
          mapped-IsSettled,
          get_tm-IsSettled k t ended,
          with_id-IsSettled k t ended,
          get_task-IsSettled k t ended,
        )
        depth 9

  listed-IsSettled : (r : ListTasksResult) → Steady (IsSettled k t) (listed s c j r)
  listed-IsSettled r = search steady_rules

  list_with-IsSettled :
      (params : Members) (state : Option TaskState)
      → Steady (IsSettled k t) (list_with s c j params state)
  list_with-IsSettled params state =
      search
        (
          steady_rules,
          valid_query-IsSettled k t ended s j,
          list_all-IsSettled k t ended,
          listed-IsSettled,
        )
        depth 7

  list_parsed-IsSettled :
      (params : Members) (raw : Json) (state : Option TaskState)
      → Steady (IsSettled k t) (list_parsed s c j params raw state)
  list_parsed-IsSettled params raw none = search steady_rules
  list_parsed-IsSettled params raw (some state) = list_with-IsSettled params (some state)

  list_status-IsSettled :
      (params : Members) (raw : Json) → Steady (IsSettled k t) (list_status s c j params raw)
  list_status-IsSettled params null = list_with-IsSettled params none
  list_status-IsSettled params (boolean b) = search list_parsed-IsSettled
  list_status-IsSettled params (number n) = search list_parsed-IsSettled
  list_status-IsSettled params (string x) = search list_parsed-IsSettled
  list_status-IsSettled params (array xs) = search list_parsed-IsSettled
  list_status-IsSettled params (object d) = search list_parsed-IsSettled

  list_tasks-IsSettled :
      (params : Members) → Steady (IsSettled k t) (handle_tasks_list s c j params)
  unfolding handle_tasks_list
  list_tasks-IsSettled params =
      search (steady_rules, mapped-IsSettled, get_tm-IsSettled k t ended, list_status-IsSettled)
        depth 7

  cancel-IsSettled : (params : Members) → Steady (IsSettled k t) (handle_tasks_cancel s c j params)
  unfolding handle_tasks_cancel
  cancel-IsSettled params =
      search
        (
          steady_rules,
          mapped-IsSettled,
          get_tm-IsSettled k t ended,
          with_id-IsSettled k t ended,
          cancel_task-IsSettled k t ended,
        )
        depth 9

  subscribe-IsSettled :
      (q : HttpRequest) (params : Members)
      → Steady (IsSettled k t) (handle_tasks_resubscribe s c q j params)
  unfolding handle_tasks_resubscribe
  subscribe-IsSettled q params =
      search (steady_rules, mapped-IsSettled, subscription-IsSettled k t ended) depth 7

  push_create-IsSettled : (params : Members) → Steady (IsSettled k t) (handle_push_set s c j params)
  unfolding handle_push_set
  push_create-IsSettled params =
      search
        (
          steady_rules,
          mapped-IsSettled,
          with_id-IsSettled k t ended,
          set_push_config-IsSettled k t ended,
        )
        depth 9

  with_config_id-IsSettled :
      {A : Type 0} (i : Json) (f : Option String → Act A)
      → ((i : Option String) → Steady (IsSettled k t) (f i))
      → Steady (IsSettled k t) (with_config_id s c i f)
  with_config_id-IsSettled null f h = h none
  with_config_id-IsSettled (boolean b) f h = with_id-IsSettled k t ended s _ _ (λ i. h (some i))
  with_config_id-IsSettled (number n) f h = with_id-IsSettled k t ended s _ _ (λ i. h (some i))
  with_config_id-IsSettled (string x) f h = with_id-IsSettled k t ended s _ _ (λ i. h (some i))
  with_config_id-IsSettled (array xs) f h = with_id-IsSettled k t ended s _ _ (λ i. h (some i))
  with_config_id-IsSettled (object d) f h = with_id-IsSettled k t ended s _ _ (λ i. h (some i))

  push_get-IsSettled : (params : Members) → Steady (IsSettled k t) (handle_push_get s c j params)
  unfolding handle_push_get
  push_get-IsSettled params =
      search
        (
          steady_rules,
          mapped-IsSettled,
          with_id-IsSettled k t ended,
          with_config_id-IsSettled,
          get_push_config-IsSettled k t ended,
        )
        depth 11

  push_list-IsSettled : (params : Members) → Steady (IsSettled k t) (handle_push_list s c j params)
  unfolding handle_push_list
  push_list-IsSettled params =
      search
        (
          steady_rules,
          mapped-IsSettled,
          with_id-IsSettled k t ended,
          list_push_configs-IsSettled k t ended,
        )
        depth 9

  push_delete-IsSettled :
      (params : Members) → Steady (IsSettled k t) (handle_push_delete s c j params)
  unfolding handle_push_delete
  push_delete-IsSettled params =
      search
        (
          steady_rules,
          mapped-IsSettled,
          with_id-IsSettled k t ended,
          delete_push_config-IsSettled k t ended,
        )
        depth 11

  card_from-IsSettled :
      (q : HttpRequest) (p : Option (HttpRequest → Option String))
      → Steady (IsSettled k t) (card_from j q p)
  card_from-IsSettled q none = search steady_rules
  card_from-IsSettled q (some provider) = search steady_rules

module _ (k : String) (t : TaskState) (ended : is_terminal t ≡ true) (s : Service)
    (c : StreamEvent → Bool) where
  methods-IsSettled : AllHandlers (Keeps (IsSettled k t)) (methods s c)
  unfolding methods
  methods-IsSettled = (
    λ q j params. send_message-IsSettled k t ended s c j q params,
    (
      λ q j params. send_streaming-IsSettled k t ended s c j q params,
      (
        λ q j params. send_streaming-IsSettled k t ended s c j q params,
        (
          λ q j params. get_task-IsSettled_lem k t ended s c j params,
          (
            λ q j params. list_tasks-IsSettled k t ended s c j params,
            (
              λ q j params. cancel-IsSettled k t ended s c j params,
              (
                λ q j params. subscribe-IsSettled k t ended s c j q params,
                (
                  λ q j params. push_create-IsSettled k t ended s c j params,
                  (
                    λ q j params. push_get-IsSettled k t ended s c j params,
                    (
                      λ q j params. push_list-IsSettled k t ended s c j params,
                      (
                        λ q j params. push_delete-IsSettled k t ended s c j params,
                        (
                          λ q j params.
                              card_from-IsSettled k t ended s c j q s.extended_card_provider,
                          (λ q j params. search steady_rules, tt),
                        ),
                      ),
                    ),
                  ),
                ),
              ),
            ),
          ),
        ),
      ),
    ),
  )

-- Whatever the body of a request to the JSON-RPC endpoint of v0.3 is, and the middleware, with
-- other writers acting before each call of the storage: a task in a terminal state is in that state
-- afterwards, as long as no other writer deletes it and no fresh identifier is its own.
pub v03_endpoint-IsSettled :
    (s : Service) (c : StreamEvent → Bool) (q : HttpRequest) (body : Option Json) (k : String)
    (t : TaskState) (w : World)
    → is_terminal t ≡ true
    → IsSettled k t w
    → IsSettled k t (endpoint s c q body w).1
unfolding endpoint binding
v03_endpoint-IsSettled s c q body k t w ended settled =
    (jsonrpc_endpoint-Steady (binding s c) (IsSettled k t) (methods-IsSettled k t ended s c)
        s.middlewares q body).holds
      w settled
