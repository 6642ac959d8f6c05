-- ===== src/Tests/Http.antt =====
-- The theorems on the HTTP transports, on a concrete service with a middleware that refuses.
use a2akit.Prelude.{
  pos, String, ◌≡◌, refl, true, false, Option, none, some, List, [], ◌∷◌, keep, not, is_some,
  if◌then◌else◌,
}
use a2akit.Wire.{
  completed, working, SendMessageRequest, snapshot, artifact_update, direct_reply, terminal_marker,
}
use a2akit.Errors.{task_not_found, authentication_required}
use a2akit.EventBus.{BufferedEvent}
use a2akit.Middleware.{HttpRequest}
use a2akit.Http.Json.{Json, string, number, object, Members, no_members, member, find}
use a2akit.Http.Envelope.{A2aMiddleware, begin}
use a2akit.Http.Frames.{later_frames, is_direct_reply}
use a2akit.Dict
use a2akit.Http.Frames.Index.{AllShown, until_terminal, later_frames_shown}
use a2akit.Http.Actions.{lacks_message_id}
use a2akit.Http.Service.{Service}
use a2akit.Http.Rpc.Replies.{Answers}
use a2akit.Http.Rpc.Denied.{reveals}
use a2akit.Http.V10.{endpoint, handle_send_message}
use a2akit.Http.V10.Answered.{endpoint-Answers}
use a2akit.Http.V10.Refused.{endpoint-refused}
use a2akit.Http.V10.Settled.{endpoint-IsSettled}
use a2akit.Http.V03
use a2akit.Http.RestV03
use a2akit.Http.RestV03.Settled.{v03_serve-IsSettled}
use a2akit.Http.V03.Refused.{v03_endpoint-refused}
use a2akit.Http.Rest.{post_cancel, serve, message_send}
use a2akit.Http.Rest.Settled.{serve-IsSettled}
use a2akit.Http.Rest.Agrees.{as_rpc, message_send_agrees}
use a2akit.Runtime.Settled.{IsSettled}
use a2akit.Tests.Data.{question, note, task_in}
use a2akit.Tests.Worlds.{world_in, world_in-IsSettled}
use a2akit.Tests.Delivery.{network}

-- It refuses a request without the header, whatever the envelope is.
abbrev gate : A2aMiddleware
gate = record {
  before_dispatch = λ env q. (
    if is_some (q.header "Authorization") then none else some (authentication_required "Bearer"),
    env,
  );
  after_dispatch = λ env result. (none, env);
}

abbrev anonymous : HttpRequest
anonymous = record { path = "/"; header = λ name. none }

abbrev known : HttpRequest
known = record { path = "/"; header = λ name. some "Bearer abc" }

abbrev message_params : SendMessageRequest
message_params = record { message = question; tenant = none; configuration = none }

abbrev service : Service
service = record {
  has_task_manager = true;
  middlewares = gate ∷ [];
  capabilities = some (record { streaming = true; push_notifications = true });
  extended_card_provider = none;
  input_modes = [];
  url_policy = none;
  network = network;
  validators = record {
    send_params = λ params. some message_params;
    list_query = λ raw. none;
    push_config = λ body. none;
    task_state = λ raw. none;
  };
  texts = record {
    str = λ e. "";
    repr = λ raw. "?";
    strip = λ text. text;
    int = λ text. none;
    str_int = λ n. "0";
    event_number = λ text. none;
    rejects = λ raw. task_not_found;
  };
  stream = 7;
  live = [];
}

-- {"jsonrpc": "2.0", "method": ..., "params": {"id": "t1"}}, with or without an id
abbrev call_of : String → Members → Option Json
call_of method rest = some (
    object (
      member "jsonrpc" (string "2.0") (
        member "method" (string method)
          (member "params" (object (member "id" (string "t1") no_members)) rest))))

abbrev with_id : Members
with_id = member "id" (number (pos 5)) no_members

endpoint-Answers_example :
    Answers
      (some (number (pos 5)))
      (endpoint service known (call_of "CancelTask" with_id) (world_in completed)).0
unfolding find
endpoint-Answers_example =
    endpoint-Answers service known (call_of "CancelTask" with_id) (world_in completed)

endpoint-refused_example :
    ((endpoint service anonymous (call_of "SendMessage" with_id) (world_in working)).1
      ≡ world_in working)
    × (reveals (endpoint service anonymous (call_of "SendMessage" with_id) (world_in working)).0
        ≡ false)
unfolding begin
endpoint-refused_example =
    endpoint-refused service anonymous (call_of "SendMessage" with_id) (world_in working)
      (λ env. refl)

v03_endpoint-refused_example :
    ((V03.endpoint service
        (λ event. true)
        anonymous
        (call_of "message/send" with_id)
        (world_in working)).1
      ≡ world_in working)
    × (reveals
          (V03.endpoint service
            (λ event. true)
            anonymous
            (call_of "message/send" with_id)
            (world_in working)).0
        ≡ false)
unfolding begin
v03_endpoint-refused_example =
    v03_endpoint-refused service (λ event. true) anonymous (call_of "message/send" with_id)
      (world_in working) (λ env. refl)

endpoint-IsSettled_example :
    IsSettled "t1" completed
      (endpoint service known (call_of "CancelTask" with_id) (world_in completed)).1
endpoint-IsSettled_example =
    endpoint-IsSettled service known (call_of "CancelTask" with_id) "t1" completed
      (world_in completed) refl world_in-IsSettled

serve-IsSettled_example :
    IsSettled "t1" completed (serve service known (post_cancel "t1") (world_in completed)).1
serve-IsSettled_example =
    serve-IsSettled service known (post_cancel "t1") "t1" completed (world_in completed) refl
      world_in-IsSettled

v03_serve-IsSettled_example :
    IsSettled "t1" completed
      (RestV03.serve service (λ e. true) known (RestV03.post_cancel "t1") (world_in completed)).1
v03_serve-IsSettled_example =
    v03_serve-IsSettled service (λ e. true) known (RestV03.post_cancel "t1") "t1" completed
      (world_in completed) refl world_in-IsSettled

message_send_agrees_example :
    handle_send_message service known (number (pos 5)) no_members (world_in working) ≡ (
      as_rpc service
          (number (pos 5))
          (message_send service known message_params (world_in working)).0,
      (message_send service known message_params (world_in working)).1,
    )
unfolding lacks_message_id
message_send_agrees_example =
    message_send_agrees service known (number (pos 5)) no_members message_params (world_in working)
      refl refl refl

abbrev events : List BufferedEvent
events =
    record { id = 1; event = artifact_update "t1" "c1" note false true }
    ∷ record { id = 2; event = direct_reply question }
    ∷ record { id = 3; event = terminal_marker "t1" "c1" (task_in completed).status }
    ∷ record { id = 4; event = snapshot (task_in completed) }
    ∷ []

later_frames_shown_example :
    AllShown
      (Dict.get [])
      (keep (λ b. not (is_direct_reply b.event)) (until_terminal events))
      (later_frames [] events)
later_frames_shown_example = later_frames_shown events []
