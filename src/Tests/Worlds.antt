-- ===== src/Tests/Worlds.antt =====
-- The theorems on coroutines, on a concrete world in which another writer is at work.
use a2akit.Prelude.{
  ℕ, ◌≡◌, refl, Bool, true, false, not, eqb, none, some, List, [], ◌∷◌, any, arith,
}
use a2akit.Dict
use a2akit.Wire.{submitted, canceled, TaskState, working, completed}
use a2akit.Errors.{ok, err, runtime_error}
use a2akit.Storage.Update
use a2akit.Storage.Update.{no_update}
use a2akit.Cancel.{cancel_task_in_storage}
use a2akit.Cancel.Settled.{cancel_task_in_storage-IsSettled}
use a2akit.Cancel.Escapes.{NoConflict, cancel_task_in_storage-Raises}
use a2akit.Cancel.Effect.{cancel_task_in_storage_quiet}
use a2akit.Cancel.Ended.{cancel_task_in_storage_ended}
use a2akit.Worker.Context.{TaskContext, versioned_update, terminal_transition, flush_artifacts}
use a2akit.Worker.Context.Turns.{Concluded, terminal_transition_stores}
use a2akit.Worker.Context.Lifecycle.{Content, build_parts, emit_artifact}
use a2akit.Worker.Context.Buffer.{with_write, emit_artifact-Kept, Kept, flush_artifacts-Kept}
use a2akit.Worker.Adapter.Run.{Outside, returned, run_task_inner}
use a2akit.Worker.Adapter.Handle.{Handle, Reply, handle_op_inner}
use a2akit.Worker.Adapter.Deliveries.{
  Settles, is_requeue, deliveries, handle_op_inner-Settles, deliveries_end,
}
use a2akit.Worker.Adapter.Settled.{run_task_inner_ended}
use a2akit.Emitter
use a2akit.Runtime.{World, Turn, writes, RunTask, Act, pause, try_except, ◌>>=◌, store, pure}
use a2akit.Runtime.Steady.{Steady}
use a2akit.Runtime.Settled.{IsSettled, HasState}
use a2akit.Runtime.Outcomes.{Raises}
use a2akit.Tests.Data.{question, note, task_in, storage_in, to_working}
use a2akit.Tests.Services.{bus}
use a2akit.EventBus.{sent}

-- Another writer sets the task to working before the second call.
abbrev rival_turns : List Turn
rival_turns =
    record { rivals = []; now = "09:02"; uuid = "u1"; clock = 10 }
    ∷ record { rivals = writes "t1" (to_working none) ∷ []; now = "09:03"; uuid = "u2"; clock = 20 }
    ∷ []

abbrev pub world_in : TaskState → World
world_in s = record {
  storage = storage_in s;
  bus = bus;
  streams = λ n. sent;
  hooks = record {
    on_state_change = true;
    on_working = true;
    on_turn_end = true;
    on_terminal = true;
  };
  hook_calls = [];
  published = [];
  cancel_events = [];
  push_store = none;
  broker_accepts = true;
  operations = [];
  background = [];
  now = "09:01";
  uuid = "u0";
  clock = 0;
  schedule = rival_turns;
}

abbrev context : TaskContext
context = record {
  task_id = "t1";
  context_id = some "c1";
  turn_ended = false;
  version = some 3;
  pending = record { artifact = note; append = false } ∷ [];
  last_flush = 0;
  flush_interval = 500;
  flush_count = 10;
}

cancel_task_in_storage-IsSettled_example :
    Steady (IsSettled "t1" completed) (cancel_task_in_storage "t1" none "stop" [])
cancel_task_in_storage-IsSettled_example =
    cancel_task_in_storage-IsSettled "t1" completed refl "t1" none "stop" []

cancel_task_in_storage-Raises_example :
    Raises NoConflict (cancel_task_in_storage "t1" none "stop" [])
cancel_task_in_storage-Raises_example = cancel_task_in_storage-Raises "t1" none "stop" []

pub world_in-IsSettled : IsSettled "t1" completed (world_in completed)
unfolding Dict.get
world_in-IsSettled = ((task_in completed, refl, refl), (tt, refl, ((tt, tt), refl, tt)), refl)

cancel_task_in_storage_ended_example :
    cancel_task_in_storage "t1" none "stop"
      (record { artifact = note; append = false } ∷ [])
      (world_in completed)
    ≡ (ok tt, pause (pause (world_in completed)))
cancel_task_in_storage_ended_example =
    cancel_task_in_storage_ended "t1" completed none "stop"
      (record { artifact = note; append = false } ∷ []) (world_in completed) refl world_in-IsSettled

flush_artifacts-Kept_example :
    Kept context
      (flush_artifacts context (world_in working)).1
      (flush_artifacts context (world_in working)).2
flush_artifacts-Kept_example = flush_artifacts-Kept context (world_in working)

abbrev operation : RunTask
operation = record {
  params = record { message = question; tenant = none; configuration = none };
  is_new_task = true;
}

abbrev delivery : Handle
delivery = record { operation = operation; attempt = 1; ack_works = true; nack_works = true }

abbrev crash : RunTask → Act (Unit {0})
crash op w = (err runtime_error, w)

handle_op_inner-Settles_example :
    Settles 3 delivery (handle_op_inner crash 3 delivery (world_in working)).0
handle_op_inner-Settles_example =
    handle_op_inner-Settles crash 3 delivery (world_in working) refl refl refl

-- The acknowledgement works, and the second nack does not.
abbrev flaky : ℕ → Bool × Bool
flaky attempt = (true, not (eqb attempt 2))

deliveries_end_example :
    (r : List Reply × World) × (deliveries 3 crash 3 flaky delivery (world_in working) ≡ some r)
    × (any is_requeue r.0 ≡ false)
deliveries_end_example = deliveries_end crash 3 flaky 2 delivery (world_in working) (omega arith)

abbrev idle : Outside
idle = record {
  handle = λ ctx w. record { ending = returned; cancelled = false; ctx = ctx; world = w };
  group_raises = λ e. e;
  describe = λ e. "boom";
}

abbrev stubborn : Outside
stubborn = record {
  handle = λ ctx w. record {
    ending = returned;
    cancelled = false;
    ctx = record ctx { turn_ended = true };
    world = w;
  };
  group_raises = λ e. e;
  describe = λ e. "boom";
}

run_task_inner_ended_example :
    run_task_inner idle question false (world_in completed)
    ≡ run_task_inner stubborn question false (world_in completed)
run_task_inner_ended_example =
    run_task_inner_ended idle stubborn question false completed refl (world_in completed)
      world_in-IsSettled

abbrev quiet : TaskState → World
quiet s = record (world_in s) { schedule = [] }

terminal_transition_stores_example :
    Concluded completed none [] [] [] context
      (quiet working)
      (terminal_transition completed none [] [] [] context (quiet working)).2
unfolding terminal_transition Dict.get Dict.set pause versioned_update try_except
    Emitter.update_task ◌>>=◌ store Update.update_task Update.check_version Update.check_terminal
    Update.apply_update Emitter.fire_hooks pure
terminal_transition_stores_example =
    terminal_transition_stores completed none [] [] [] context (quiet working) refl

cancel_task_in_storage_quiet_example :
    let (r, w') = cancel_task_in_storage "t1" none "stop" [] (quiet working) in
    (r ≡ ok tt) × HasState w'.storage "t1" canceled
unfolding Dict.get
cancel_task_in_storage_quiet_example =
    cancel_task_in_storage_quiet "t1" (task_in working) (quiet working) refl refl refl tt none
      "stop" []

abbrev refusing : World
refusing = record (quiet submitted) { broker_accepts = false }

abbrev words : Content
words = record {
  text = some "hello";
  value = none;
  file_bytes = none;
  file_url = none;
  media_type = none;
  filename = none;
}

emit_artifact-Kept_example :
    let (r, ctx', w') = emit_artifact "a2" "words" words false true context (world_in working) in
    Kept (with_write context "a2" "words" (build_parts words) false) ctx' w'
unfolding build_parts
emit_artifact-Kept_example =
    emit_artifact-Kept "a2" "words" words false true context (world_in working) refl (λ e. cc)
