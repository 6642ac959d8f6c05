-- ===== src/Http/RestV03/Settled.antt =====
-- No REST request of v0.3 takes a task out of a terminal state.
use a2akit.Prelude.{Bool, String, ◌≡◌, true, Option, none, some}
use a2akit.Wire.{StreamEvent, Task, TaskState, is_terminal}
use a2akit.Middleware.{HttpRequest}
use a2akit.Storage.Listing.{ListTasksResult}
use a2akit.Errors.{Error}
use a2akit.Manager.Messages.{Answer}
use a2akit.Http.Envelope.{Begun}
use a2akit.Http.Rpc.Steady.{ended_with-Steady, roll_back-Steady}
use a2akit.Runtime.{World, Act}
use a2akit.Runtime.Steady.{Steady, if-Steady, pure-Steady, steady_rules}
use a2akit.Runtime.Settled.{IsSettled}
use a2akit.Http.Service.{Service}
use a2akit.Http.Actions.Settled.{
  cancel_task-IsSettled, deliver-IsSettled, get_task-IsSettled, list_all-IsSettled,
  set_push_config-IsSettled, get_push_config-IsSettled, list_push_configs-IsSettled,
  delete_push_config-IsSettled, opened-IsSettled, deliver_stream-IsSettled,
  subscribe_task-IsSettled, open_yield-IsSettled,
}
use a2akit.Http.V10.Bodies.{pushes}
use a2akit.Http.Rest.Bodies.{RestResponse, has_store}
use a2akit.Http.Rest.Settled.{valid_query-IsSettled, parsed_body-IsSettled, card_answer-IsSettled}
use a2akit.Http.RestV03.{
  Route, post_message, post_stream, get_one, get_list, post_cancel, post_subscribe, set_config,
  get_config, list_configs, delete_config, get_card, get_health, message_send, message_stream,
  tasks_get, tasks_list, tasks_cancel, tasks_subscribe, with_push, push_config_set,
  push_config_get_by_id, push_config_list, push_config_delete, card_from, serve, listed, got_task,
  converted, run_sent,
}

module _ (k : String) (t : TaskState) (ended : is_terminal t ≡ true) (s : Service)
    (c : StreamEvent → Bool) where
  listed-IsSettled : (r : ListTasksResult) → Steady (IsSettled k t) (listed s c r)
  listed-IsSettled r = search steady_rules

  got_task-IsSettled : (u : Option Task) → Steady (IsSettled k t) (got_task s c u)
  got_task-IsSettled none = search steady_rules
  got_task-IsSettled (some u) = search steady_rules

  converted-IsSettled :
      (begun : Begun) (a : Answer) → Steady (IsSettled k t) (converted s c begun a)
  converted-IsSettled begun a = search (steady_rules, ended_with-Steady)

  run_sent-IsSettled :
      (begun : Begun) (raised : Option Error) → Steady (IsSettled k t) (run_sent s c begun raised)
  run_sent-IsSettled begun (some e) = search (steady_rules, roll_back-Steady)
  run_sent-IsSettled begun none =
      search (steady_rules, roll_back-Steady, converted-IsSettled, deliver-IsSettled k t ended)
        depth 7

  with_push-IsSettled :
      (m : Act RestResponse) → Steady (IsSettled k t) m → Steady (IsSettled k t) (with_push s c m)
  unfolding with_push
  with_push-IsSettled m h = record {
    holds = λ w p.
        (if-Steady (pushes s.capabilities) _ _
            (if-Steady (has_store w.push_store) m _ h (pure-Steady _)) (pure-Steady _)).holds
          w p;
  }

  card_from-IsSettled :
      (q : HttpRequest) (p : Option (HttpRequest → Option String))
      → Steady (IsSettled k t) (card_from q p)
  card_from-IsSettled q none = search steady_rules
  card_from-IsSettled q (some provider) = card_answer-IsSettled k t ended s (provider q)

  routes-IsSettled : (q : HttpRequest) (route : Route) → Steady (IsSettled k t) (serve s c q route)
  unfolding serve message_send message_stream tasks_get tasks_list tasks_cancel tasks_subscribe
      push_config_set push_config_get_by_id push_config_list push_config_delete
  routes-IsSettled q (post_message p) = search (steady_rules, run_sent-IsSettled) depth 7
  routes-IsSettled q (post_stream p) =
      search (steady_rules, opened-IsSettled k t ended, deliver_stream-IsSettled k t ended) depth 9
  routes-IsSettled q (get_one j n) =
      search (steady_rules, get_task-IsSettled k t ended, got_task-IsSettled) depth 7
  routes-IsSettled q (get_list p state) =
      search
        (
          steady_rules,
          valid_query-IsSettled k t ended s,
          list_all-IsSettled k t ended,
          listed-IsSettled,
        )
        depth 9
  routes-IsSettled q (post_cancel j) =
      search (steady_rules, cancel_task-IsSettled k t ended) depth 7
  routes-IsSettled q (post_subscribe j) =
      search (steady_rules, subscribe_task-IsSettled k t ended, open_yield-IsSettled k t ended)
        depth 9
  routes-IsSettled q (set_config j body) =
      search
        (
          steady_rules,
          with_push-IsSettled,
          parsed_body-IsSettled k t ended s,
          set_push_config-IsSettled k t ended,
        )
        depth 9
  routes-IsSettled q (get_config j c) =
      search (steady_rules, with_push-IsSettled, get_push_config-IsSettled k t ended) depth 7
  routes-IsSettled q (list_configs j) =
      search (steady_rules, with_push-IsSettled, list_push_configs-IsSettled k t ended) depth 7
  routes-IsSettled q (delete_config j c) =
      search (steady_rules, with_push-IsSettled, delete_push_config-IsSettled k t ended) depth 7
  routes-IsSettled q get_card = card_from-IsSettled q s.extended_card_provider
  routes-IsSettled q get_health = search steady_rules

-- Whatever a REST request of v0.3 asks for, on any route, and whatever the middleware of the
-- message routes do, with other writers acting before each call of the storage: a task in a
-- terminal state is in that state afterwards, as long as no other writer deletes it and no fresh
-- identifier is its own.
pub v03_serve-IsSettled :
    (s : Service) (c : StreamEvent → Bool) (q : HttpRequest) (route : Route) (k : String)
    (t : TaskState) (w : World)
    → is_terminal t ≡ true
    → IsSettled k t w
    → IsSettled k t (serve s c q route w).1
v03_serve-IsSettled s c q route k t w ended settled =
    (routes-IsSettled k t ended s c q route).holds w settled
