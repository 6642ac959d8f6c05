-- ===== src/Worker/Adapter/Handle.antt =====
-- worker/adapter.py: `_handle_op_inner`, on a handle of the broker (broker/base.py:
-- `OperationHandle`), whose `ack` and `nack` may fail. What is dispatched is a parameter.
use a2akit.Prelude.{ℕ, ◌*◌, String, Bool, true, false, List, [], ◌∷◌, ◌++◌, ltb, if◌then◌else◌}
use a2akit.Errors.{Result, ok, err, is_cancellation}
use a2akit.Push.Store.{text_or}
use a2akit.Manager.{truthy}
use a2akit.Runtime.{World, Act, RunTask, pure, try_except}
use a2akit.Worker.Adapter.{mark_failed}

pub record Handle : Type 0 where
  pub operation : RunTask
  pub attempt : ℕ
  pub ack_works : Bool
  pub nack_works : Bool

-- A call of the handle, with the delay of a nack, and whether it returned.
pub data Reply : Type 0 where
  acked : Bool → Reply
  nacked : ℕ → Bool → Reply

abbrev pub min : ℕ → ℕ → ℕ
min a b = if ltb b a then b else a

-- The failure of the operation's task, if the message names one; an exception is logged.
unfoldable pub fail_operation : RunTask → String → Act (Unit {0})
fail_operation op reason =
    let m = op.params.message in
    if truthy m.task_id
    then try_except (mark_failed (text_or m.task_id "") m.context_id reason []) (λ e. pure tt)
    else pure tt

-- After the last attempt: the failure is stored before the message leaves the queue.
unfoldable pub give_up : Handle → String → List Reply → World → List Reply × World
give_up h reason replies w =
    (replies ++ acked h.ack_works ∷ [], (fail_operation h.operation reason w).1)

-- `except Exception` around the dispatch.
unfoldable pub after_failure : Handle → ℕ → List Reply → World → List Reply × World
after_failure h max_retries replies w =
    if ltb h.attempt max_retries
    then (if h.nack_works
        then (replies ++ nacked (min (h.attempt * 2) 30) true ∷ [], w)
        else give_up h "Worker failed to process task"
            (replies ++ nacked (min (h.attempt * 2) 30) false ∷ []) w)
    else give_up h "Worker failed to process task" replies w

-- What follows the dispatch: a cancellation is no `Exception`, and passes with no reply.
unfoldable pub after_dispatch : Handle → ℕ → Result (Unit {0}) → World → List Reply × World
after_dispatch h max_retries (ok x) w =
    if h.ack_works then (acked true ∷ [], w) else after_failure h max_retries (acked false ∷ []) w
after_dispatch h max_retries (err e) w =
    if is_cancellation e then ([], w) else after_failure h max_retries [] w

unfoldable pub handle_op_inner :
    (RunTask → Act (Unit {0})) → ℕ → Handle → World → List Reply × World
handle_op_inner dispatch max_retries h w =
    if ltb max_retries h.attempt
    then give_up h "Task repeatedly crashed worker processes" [] w
    else (let (r, w') = dispatch h.operation w in after_dispatch h max_retries r w')
