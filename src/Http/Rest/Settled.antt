-- ===== src/Http/Rest/Settled.antt =====
-- No REST request takes a task out of a terminal state.
use a2akit.Prelude.{String, ◌≡◌, true, List, Option, none, some}
use a2akit.Errors.{Error, is_cancellation}
use a2akit.Wire.{SendMessageRequest, TaskState, is_terminal}
use a2akit.Middleware.{HttpRequest}
use a2akit.Storage.Listing.{ListTasksQuery}
use a2akit.Runtime.{World, Act, pure, raise}
use a2akit.Runtime.Steady.{Steady, if-Steady, pure-Steady, raise-Steady, steady_rules}
use a2akit.Runtime.Settled.{IsSettled}
use a2akit.Http.Json.{Json}
use a2akit.Http.Service.{Service}
use a2akit.Http.Actions.Settled.{
  cancel_task-IsSettled, get_task-IsSettled, list_all-IsSettled, set_push_config-IsSettled,
  get_push_config-IsSettled, list_push_configs-IsSettled, delete_push_config-IsSettled,
  opened-IsSettled, deliver_stream-IsSettled, subscribe_task-IsSettled, open_yield-IsSettled,
}
use a2akit.Http.V10.Bodies.{valid_query, pushes}
use a2akit.Http.Rest.{
  Route, post_message, post_stream, get_one, get_list, post_cancel, post_subscribe, set_config,
  get_config, list_configs, delete_config, get_card, get_health, message_send, message_stream,
  tasks_get, list_with, list_parsed, list_status, tasks_list, tasks_cancel, tasks_subscribe,
  with_push, push_config_set, push_config_get_by_id, push_config_list, push_config_delete, serve,
}
use a2akit.Http.Envelope.{RequestEnvelope, A2aMiddleware, finish}
use a2akit.Manager.Messages.{Answer}
use a2akit.Manager.Messages.Settled.{send_message-IsSettled}
use a2akit.Http.Rest.Message.{surfaced, concluded, dispatched_message, run_message}
use a2akit.Http.Rest.Bodies.{
  RestResponse, has_store, ListParams, parsed_body, card_from, card_answer,
}

module _ (k : String) (t : TaskState) (ended : is_terminal t ≡ true) (s : Service) where
  pub valid_query-IsSettled : (q : Option ListTasksQuery) → Steady (IsSettled k t) (valid_query q)
  valid_query-IsSettled none = search steady_rules
  valid_query-IsSettled (some q) = search steady_rules

  list_with-IsSettled :
      (p : ListParams) (o : Option TaskState) → Steady (IsSettled k t) (list_with s p o)
  list_with-IsSettled p o =
      search (steady_rules, valid_query-IsSettled, list_all-IsSettled k t ended) depth 7

  list_parsed-IsSettled :
      (p : ListParams) (status : String) (o : Option TaskState)
      → Steady (IsSettled k t) (list_parsed s p status o)
  list_parsed-IsSettled p status none = search steady_rules
  list_parsed-IsSettled p status (some state) = list_with-IsSettled p (some state)

  list_status-IsSettled :
      (p : ListParams) (o : Option String) → Steady (IsSettled k t) (list_status s p o)
  list_status-IsSettled p none = list_with-IsSettled p none
  list_status-IsSettled p (some status) = list_parsed-IsSettled p status _

  with_push-IsSettled :
      (m : Act RestResponse) → Steady (IsSettled k t) m → Steady (IsSettled k t) (with_push s m)
  unfolding with_push
  with_push-IsSettled m h = record {
    holds = λ w p.
        (if-Steady (pushes s.capabilities) _ _
            (if-Steady (has_store w.push_store) m _ h (pure-Steady _)) (pure-Steady _)).holds
          w p;
  }

  pub parsed_body-IsSettled : (b : Option Json) → Steady (IsSettled k t) (parsed_body b)
  parsed_body-IsSettled none = search steady_rules
  parsed_body-IsSettled (some b) = search steady_rules

  pub card_answer-IsSettled : (c : Option String) → Steady (IsSettled k t) (card_answer c)
  card_answer-IsSettled none = search steady_rules
  card_answer-IsSettled (some c) = search steady_rules

  card_from-IsSettled :
      (q : HttpRequest) (p : Option (HttpRequest → Option String))
      → Steady (IsSettled k t) (card_from q p)
  card_from-IsSettled q none = search steady_rules
  card_from-IsSettled q (some provider) = card_answer-IsSettled (provider q)

  surfaced-IsSettled :
      (env : RequestEnvelope) (started : List A2aMiddleware) (e : Error)
      → Steady (IsSettled k t) (surfaced env started e)
  unfolding surfaced
  surfaced-IsSettled env started e =
      if-Steady (is_cancellation e) _ _ (raise-Steady e)
        (raised_either (finish (record env { a2a_error = some e }) none started))
    where
      raised_either :
          (r : Option Error)
          → Steady (IsSettled k t) (elim r [ none ↦ raise {A = Answer} e | some e' ↦ raise e' ])
      raised_either none = search steady_rules
      raised_either (some e') = search steady_rules

  concluded-IsSettled :
      (env : RequestEnvelope) (started : List A2aMiddleware) (a : Answer)
      → Steady (IsSettled k t) (concluded env started a)
  unfolding concluded
  concluded-IsSettled env started a = after (finish env (some a) started)
    where
      after :
          (r : Option Error) → Steady (IsSettled k t) (elim r [ none ↦ pure a | some e ↦ raise e ])
      after none = search steady_rules
      after (some e) = search steady_rules

  dispatched-IsSettled :
      (r : Option Error) (p : Option SendMessageRequest)
      → Steady (IsSettled k t) (dispatched_message s r p)
  unfolding dispatched_message
  dispatched-IsSettled (some e) p = search steady_rules
  dispatched-IsSettled none none = search steady_rules
  dispatched-IsSettled none (some p) =
      (send_message-IsSettled k t ended s.input_modes p s.stream s.live).0

  run_message-IsSettled :
      (q : HttpRequest) (p : SendMessageRequest) → Steady (IsSettled k t) (run_message s q p)
  unfolding run_message
  run_message-IsSettled q p =
      search (steady_rules, dispatched-IsSettled, surfaced-IsSettled, concluded-IsSettled) depth 7

  routes-IsSettled : (q : HttpRequest) (route : Route) → Steady (IsSettled k t) (serve s q route)
  unfolding serve message_send message_stream tasks_get tasks_list tasks_cancel tasks_subscribe
      push_config_set push_config_get_by_id push_config_list push_config_delete
  routes-IsSettled q (post_message p) = search (steady_rules, run_message-IsSettled) depth 7
  routes-IsSettled q (post_stream p) =
      search (steady_rules, opened-IsSettled k t ended, deliver_stream-IsSettled k t ended) depth 9
  routes-IsSettled q (get_one j n) = search (steady_rules, get_task-IsSettled k t ended) depth 7
  routes-IsSettled q (get_list p) = search (steady_rules, list_status-IsSettled) depth 7
  routes-IsSettled q (post_cancel j) =
      search (steady_rules, cancel_task-IsSettled k t ended) depth 7
  routes-IsSettled q (post_subscribe j) =
      search (steady_rules, subscribe_task-IsSettled k t ended, open_yield-IsSettled k t ended)
        depth 9
  routes-IsSettled q (set_config j body) =
      search
        (
          steady_rules,
          with_push-IsSettled,
          parsed_body-IsSettled,
          set_push_config-IsSettled k t ended,
        )
        depth 9
  routes-IsSettled q (get_config j c) =
      search (steady_rules, with_push-IsSettled, get_push_config-IsSettled k t ended) depth 7
  routes-IsSettled q (list_configs j) =
      search (steady_rules, with_push-IsSettled, list_push_configs-IsSettled k t ended) depth 7
  routes-IsSettled q (delete_config j c) =
      search (steady_rules, with_push-IsSettled, delete_push_config-IsSettled k t ended) depth 7
  routes-IsSettled q get_card = card_from-IsSettled q s.extended_card_provider
  routes-IsSettled q get_health = search steady_rules

-- Whatever a REST request of v1.0 asks for, on any route, and whatever the middleware of the
-- message routes do, with other writers acting before each call of the storage: a task in a
-- terminal state is in that state afterwards, as long as no other writer deletes it and no fresh
-- identifier is its own.
pub serve-IsSettled :
    (s : Service) (q : HttpRequest) (route : Route) (k : String) (t : TaskState) (w : World)
    → is_terminal t ≡ true
    → IsSettled k t w
    → IsSettled k t (serve s q route w).1
serve-IsSettled s q route k t w ended settled =
    (routes-IsSettled k t ended s q route).holds w settled
