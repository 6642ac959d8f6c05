-- ===== src/Http/Actions/Settled.antt =====
-- The actions of the handlers and tasks that have ended.
use a2akit.Prelude.{ℕ, ℤ, String, ◌≡◌, true, Option, none, some, List, [], ◌∷◌}
use a2akit.Wire.{Task, TaskState, SendMessageRequest, is_terminal}
use a2akit.Errors.{Error}
use a2akit.EventBus.{BufferedEvent}
use a2akit.Middleware.{HttpRequest}
use a2akit.Storage.Listing.{ListTasksQuery}
use a2akit.Push.Store.{PushConfig, PushStore}
use a2akit.Manager.Messages.{Answer}
use a2akit.Manager.Messages.Settled.{send_message-IsSettled}
use a2akit.Manager.Send.{Yield, subscribe_task, subscribed}
use a2akit.Manager.Cancellation.{request_cancel, is_cancelled, or_not_found, cancel_task}
use a2akit.Runtime.{World, Act, Background, ◌>>=◌, spawn, load, load_trimmed}
use a2akit.Runtime.Steady.{Steady, steady_rules}
use a2akit.Runtime.Settled.{IsSettled, load-IsSettled, pause-IsSettled}
use a2akit.Http.Json.{Json, null, boolean, number, string, array, object}
use a2akit.Http.Envelope.{RequestEnvelope, Begun}
use a2akit.Http.Frames.{Frame}
use a2akit.Http.Rpc.Steady.{ended_with-Steady, roll_back-Steady}
use a2akit.Http.Service.{Service}
use a2akit.Http.Actions
use a2akit.Http.Actions.{
  Opened, open_events, open_yield, opened, run_sent, get_tm, deliver, deliver_stream, sent,
  sent_stream, with_id, subscribe, get_task, refused_length, list_all, set_in, set_push_config,
  get_push_config, list_push_configs, delete_in, delete_push_config,
}

module _ (k : String) (t : TaskState) (ended : is_terminal t ≡ true) where
  pub opened-IsSettled :
      (begun : Begun) (m : Act Opened) (raised : Option Error)
      → Steady (IsSettled k t) m
      → Steady (IsSettled k t) (opened begun m raised)
  unfolding opened
  opened-IsSettled begun m none h = search (steady_rules, roll_back-Steady)
  opened-IsSettled begun m (some e) h = search roll_back-Steady

  run_sent-IsSettled :
      (begun : Begun) (m : Act Answer) (raised : Option Error)
      → Steady (IsSettled k t) m
      → Steady (IsSettled k t) (run_sent begun m raised)
  unfolding run_sent
  run_sent-IsSettled begun m none h =
      search (steady_rules, roll_back-Steady, ended_with-Steady) depth 7
  run_sent-IsSettled begun m (some e) h = search (steady_rules, roll_back-Steady)

  subscribed-IsSettled :
      (after : Option (Option ℕ)) (buffer live : List BufferedEvent) (n : ℕ) (found : Option Task)
      → Steady (IsSettled k t) (subscribed after buffer live n found)
  unfolding subscribed
  subscribed-IsSettled after buffer live n none = search steady_rules
  subscribed-IsSettled none buffer live n (some u) = search steady_rules
  subscribed-IsSettled (some a) buffer live n (some u) = search steady_rules

  bound-IsSettled :
      (j : String) (f : Option Task → Act Yield)
      → ((found : Option Task) → Steady (IsSettled k t) (f found))
      → Steady (IsSettled k t) (load j >>= f)
  bound-IsSettled j f h = search (steady_rules, load-IsSettled k t ended)

  pub subscribe_task-IsSettled :
      (j : String) (after : Option (Option ℕ)) (n : ℕ) (live : List BufferedEvent)
      → Steady (IsSettled k t) (subscribe_task j after n live)
  unfolding subscribe_task
  subscribe_task-IsSettled j after n live = record {
    holds = λ w p. (bound-IsSettled j _ (λ u. subscribed-IsSettled after _ live _ u)).holds _ p;
  }

  open_events-IsSettled : (bs : List BufferedEvent) → Steady (IsSettled k t) (open_events bs)
  open_events-IsSettled [] = search steady_rules
  open_events-IsSettled (b ∷ bs) = search steady_rules

  pub open_yield-IsSettled : (y : Yield) → Steady (IsSettled k t) (open_yield y)
  open_yield-IsSettled (none, bs) = open_events-IsSettled bs
  open_yield-IsSettled (some u, bs) = search steady_rules

  or_not_found-IsSettled : (found : Option Task) → Steady (IsSettled k t) (or_not_found found)
  or_not_found-IsSettled none = search steady_rules
  or_not_found-IsSettled (some u) = search steady_rules

  request_cancel-IsSettled : (j : String) → Steady (IsSettled k t) (request_cancel j)
  unfolding request_cancel
  request_cancel-IsSettled j = record { holds = λ w p. p }

  is_cancelled-IsSettled : (j : String) → Steady (IsSettled k t) (is_cancelled j)
  unfolding is_cancelled
  is_cancelled-IsSettled j = record { holds = λ w p. p }

  spawn-IsSettled : (job : Background) → Steady (IsSettled k t) (spawn job)
  unfolding spawn
  spawn-IsSettled job = record { holds = λ w p. p }

  -- Cancelling a task, by whatever identifier, leaves a task that has ended in its state.
  pub cancel_task-IsSettled : (j : String) → Steady (IsSettled k t) (cancel_task j)
  unfolding cancel_task
  cancel_task-IsSettled j =
      search
        (
          steady_rules,
          load-IsSettled k t ended,
          or_not_found-IsSettled,
          request_cancel-IsSettled,
          is_cancelled-IsSettled,
          spawn-IsSettled,
        )
        depth 14

  load_trimmed-IsSettled : (j : String) (n : ℤ) → Steady (IsSettled k t) (load_trimmed j n)
  unfolding load_trimmed
  load_trimmed-IsSettled j n = record { holds = λ w p. pause-IsSettled k t ended w p }

  module _ (s : Service) where
    pub get_tm-IsSettled : Steady (IsSettled k t) (get_tm s)
    unfolding get_tm
    get_tm-IsSettled = search steady_rules

    pub deliver-IsSettled : (p : Option SendMessageRequest) → Steady (IsSettled k t) (deliver s p)
    deliver-IsSettled none = search steady_rules
    deliver-IsSettled (some p) =
        (send_message-IsSettled k t ended s.input_modes p s.stream s.live).0

    pub deliver_stream-IsSettled :
        (p : Option SendMessageRequest) → Steady (IsSettled k t) (deliver_stream s p)
    deliver_stream-IsSettled none = search steady_rules
    deliver_stream-IsSettled (some p) =
        search (steady_rules, (send_message-IsSettled k t ended s.input_modes p s.stream s.live).1)

    pub sent-IsSettled :
        (q : HttpRequest) (env : RequestEnvelope) → Steady (IsSettled k t) (sent s q env)
    unfolding sent
    sent-IsSettled q env =
        search (steady_rules, get_tm-IsSettled, run_sent-IsSettled, deliver-IsSettled) depth 7

    pub sent_stream-IsSettled :
        (render : Opened → List Frame) (q : HttpRequest) (j : Json) (env : RequestEnvelope)
        → Steady (IsSettled k t) (sent_stream s render q j env)
    unfolding sent_stream
    sent_stream-IsSettled render q j env =
        search (steady_rules, get_tm-IsSettled, opened-IsSettled, deliver_stream-IsSettled) depth 7

    pub with_id-IsSettled :
        {A : Type 0} (j : Json) (f : String → Act A)
        → ((i : String) → Steady (IsSettled k t) (f i))
        → Steady (IsSettled k t) (with_id s j f)
    unfolding with_id
    with_id-IsSettled (string i) f h = h i
    with_id-IsSettled null f h = search steady_rules
    with_id-IsSettled (boolean b) f h = search steady_rules
    with_id-IsSettled (number n) f h = search steady_rules
    with_id-IsSettled (array xs) f h = search steady_rules
    with_id-IsSettled (object d) f h = search steady_rules

    subscribe-IsSettled : (q : HttpRequest) (j : Json) → Steady (IsSettled k t) (subscribe s q j)
    subscribe-IsSettled q j =
        search
          (
            steady_rules, get_tm-IsSettled, with_id-IsSettled, subscribe_task-IsSettled,
            open_yield-IsSettled,
          )
          depth 9

    pub subscription-IsSettled :
        (render : Opened → List Frame) (q : HttpRequest) (j : Json) (env : RequestEnvelope)
        (i : Json)
        → Steady (IsSettled k t) (Actions.subscribed s render q j env i)
    unfolding Actions.subscribed
    subscription-IsSettled render q j env i =
        search (steady_rules, opened-IsSettled, subscribe-IsSettled) depth 7

    refused_length-IsSettled :
        (j : Json) (u : Option Task) → Steady (IsSettled k t) (refused_length s j u)
    refused_length-IsSettled j none = search steady_rules
    refused_length-IsSettled j (some u) = search steady_rules

    pub get_task-IsSettled : (n : Json) (j : String) → Steady (IsSettled k t) (get_task s n j)
    unfolding get_task
    get_task-IsSettled null j = load-IsSettled k t ended j
    get_task-IsSettled (number n) j = load_trimmed-IsSettled j n
    get_task-IsSettled (boolean b) j = load_trimmed-IsSettled j _
    get_task-IsSettled (string x) j =
        search (steady_rules, load-IsSettled k t ended, refused_length-IsSettled)
    get_task-IsSettled (array x) j =
        search (steady_rules, load-IsSettled k t ended, refused_length-IsSettled)
    get_task-IsSettled (object x) j =
        search (steady_rules, load-IsSettled k t ended, refused_length-IsSettled)

    pub list_all-IsSettled : (query : ListTasksQuery) → Steady (IsSettled k t) (list_all s query)
    unfolding list_all
    list_all-IsSettled query = record { holds = λ w p. pause-IsSettled k t ended w p }

    set_in-IsSettled :
        (w : World) (j : String) (c : Option PushConfig) (store : Option PushStore)
        → IsSettled k t w
        → IsSettled k t (set_in s w j c store).1
    set_in-IsSettled w j c none p = p
    set_in-IsSettled w j c (some store) p = p

    pub set_push_config-IsSettled :
        (c : Option PushConfig) (j : String) → Steady (IsSettled k t) (set_push_config s c j)
    unfolding set_push_config
    set_push_config-IsSettled c j = record {
      holds = λ w p. set_in-IsSettled _ j c _ (pause-IsSettled k t ended w p);
    }

  pub get_push_config-IsSettled :
      (c : Option String) (j : String) → Steady (IsSettled k t) (get_push_config c j)
  unfolding get_push_config
  get_push_config-IsSettled c j = record { holds = λ w p. pause-IsSettled k t ended w p }

  pub list_push_configs-IsSettled : (j : String) → Steady (IsSettled k t) (list_push_configs j)
  unfolding list_push_configs
  list_push_configs-IsSettled j = record { holds = λ w p. pause-IsSettled k t ended w p }

  delete_in-IsSettled :
      (w : World) (j c : String) (store : Option PushStore)
      → IsSettled k t w
      → IsSettled k t (delete_in w j c store).1
  delete_in-IsSettled w j c none p = p
  delete_in-IsSettled w j c (some store) p = p

  pub delete_push_config-IsSettled :
      (c j : String) → Steady (IsSettled k t) (delete_push_config c j)
  unfolding delete_push_config
  delete_push_config-IsSettled c j = record {
    holds = λ w p. delete_in-IsSettled _ j c _ (pause-IsSettled k t ended w p);
  }
