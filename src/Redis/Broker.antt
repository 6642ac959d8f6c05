-- ===== src/Redis/Broker.antt =====
-- `RedisOperationHandle`, and what `RedisBroker` does with a message that it has read or claimed:
-- the commands that it sends, and the handle that it yields. The clock is an argument, and what
-- `json.loads` and pydantic make of an operation. A MULTI is one step; the commands of a pipeline
-- without a transaction are a step each.
use a2akit.Prelude.{
  ℕ, ◌+◌, String, Bool, false, Option, none, some, List, [], ◌∷◌, ltb, if◌then◌else◌,
}
use a2akit.Runtime.{RunTask}
use a2akit.Redis.Server.{Entry, Command, xadd, xadd_dead, xack, hincrby, hdel, Step}

pub record OperationHandle : Type 0 where
  pub msg_id : ℕ
  pub operation : RunTask
  pub serialized_op : String
  pub attempt : ℕ
  pub max_retries : ℕ

abbrev pub one : Command → Step
one c = c ∷ []

-- `ack`, with `_clear_crash_count`
unfoldable pub ack : OperationHandle → List Step
ack h = one (xack h.msg_id) ∷ (one (hdel h.msg_id) ∷ [])

abbrev pub retried : OperationHandle → Option ℕ → Entry
retried h not_before = record {
  op = h.serialized_op;
  attempt = some (h.attempt + 1);
  not_before = not_before;
  error = none;
}

-- time.time() + delay_seconds, if the delay is not 0
abbrev pub due_at : ℕ → ℕ → Option ℕ
due_at now delay = if ltb 0 delay then some (now + delay) else none

-- `nack`
unfoldable pub nack : OperationHandle → ℕ → ℕ → List Step
nack h now delay =
    if ltb h.max_retries (h.attempt + 1)
    then one (xadd_dead (retried h none)) ∷ (one (xack h.msg_id) ∷ (one (hdel h.msg_id) ∷ []))
    else one (xack h.msg_id)
      ∷ (one (xadd (retried h (due_at now delay))) ∷ (one (hdel h.msg_id) ∷ []))

-- `_requeue_not_due`
unfoldable pub requeue_not_due : ℕ → Entry → List Step
requeue_not_due msg_id e = (xadd e ∷ (xack msg_id ∷ (hdel msg_id ∷ []))) ∷ []

-- not_before_raw and float(not_before_raw) > time.time()
abbrev pub not_due : Entry → ℕ → Bool
not_due e now = elim e.not_before [ none ↦ false | some t ↦ ltb now t ]

-- int(fields.get(b"attempt", b"1"))
abbrev pub attempt_of : Entry → ℕ
attempt_of e = elim e.attempt [ none ↦ 1 | some n ↦ n ]

abbrev pub undecodable : Entry → Entry
undecodable e = record {
  op = e.op;
  attempt = none;
  not_before = none;
  error = some "deserialization_failed";
}

-- The `except` clause of both loops.
abbrev pub discard : ℕ → Entry → List Step
discard msg_id e = one (xadd_dead (undecodable e)) ∷ (one (xack msg_id) ∷ [])

abbrev pub Handling : Type 0
Handling = List Step × Option OperationHandle

abbrev pub handle_of : ℕ → Entry → ℕ → ℕ → RunTask → OperationHandle
handle_of msg_id e max_retries attempt op = record {
  msg_id = msg_id;
  operation = op;
  serialized_op = e.op;
  attempt = attempt;
  max_retries = max_retries;
}

module _ (max_retries : ℕ) (deserialize : Entry → Option RunTask) where
  abbrev pub read_decoded : ℕ → Entry → Option RunTask → Handling
  read_decoded msg_id e none = (discard msg_id e, none)
  read_decoded msg_id e (some op) = ([], some (handle_of msg_id e max_retries (attempt_of e) op))

  -- `receive_task_operations`, on a message of XREADGROUP
  unfoldable pub receive : ℕ → Entry → ℕ → Handling
  receive msg_id e now =
      if not_due e now
      then (requeue_not_due msg_id e, none)
      else read_decoded msg_id e (deserialize e)

  -- A message that was claimed more often than it may be tried goes to the dead letters, and the
  -- handle is for the adapter.
  abbrev pub claim_decoded : ℕ → Entry → ℕ → Option RunTask → Handling
  claim_decoded msg_id e claimed none = (discard msg_id e, none)
  claim_decoded msg_id e claimed (some op) =
      let attempt = attempt_of e + claimed in
      let handle = some (handle_of msg_id e max_retries attempt op) in
      if ltb max_retries attempt
      then (
        one (hincrby msg_id)
            ∷ (one
                  (xadd_dead (record e { attempt = some attempt; not_before = none; error = none }))
                ∷ (one (xack msg_id) ∷ (one (hdel msg_id) ∷ []))),
        handle,
      )
      else (one (hincrby msg_id) ∷ [], handle)

  -- `_claim_stale_messages`, on a message of XAUTOCLAIM; the entry may be gone from the stream, and
  -- `crashes` is the counter before HINCRBY.
  unfoldable pub claim : ℕ → Option Entry → ℕ → ℕ → Handling
  claim msg_id none crashes now = (one (xack msg_id) ∷ [], none)
  claim msg_id (some e) crashes now =
      if not_due e now
      then (requeue_not_due msg_id e, none)
      else claim_decoded msg_id e (crashes + 1) (deserialize e)
