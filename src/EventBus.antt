-- ===== src/EventBus.antt =====
-- event_bus/memory.py: `InMemoryEventBus`. An event's identifier is the counter as a number, where
-- the code passes its decimal text. A subscriber is the number of its stream: the streams are
-- anyio's, so what `send_nowait` answers on each is an argument. The monotonic clock is an argument
-- too, in any unit. A method runs as one step: its lock is held for list operations only.
pub mod Replay
pub mod Counters
use a2akit.Prelude.{
  ℕ, ◌+◌, ◌-◌, String, Bool, true, false, not, Option, none, some, List, [], ◌∷◌, ◌++◌, length,
  drop, keep, leb, ltb, eqb, if◌then◌else◌,
}
use a2akit.Dict
use a2akit.Dict.{Dict}
use a2akit.Wire.{StreamEvent, terminal_marker}

-- What `send_nowait` did: delivered, raised WouldBlock, or raised a closed or broken stream.
pub data SendOutcome : Type 0 where
  sent would_block broken : SendOutcome

pub record BufferedEvent : Type 0 where
  pub id : ℕ
  pub event : StreamEvent

pub record EventBus : Type 0 where
  pub replay_buffer_size : ℕ
  pub replay_ttl : ℕ
  pub subs : Dict (List ℕ)
  pub replay_buffers : Dict (List BufferedEvent)
  pub event_counters : Dict ℕ
  pub purge_deadlines : Dict ℕ

-- An object of v0.3 with `final=True`, which the code takes for one too, is no event of the union.
unfoldable pub is_stream_terminal : StreamEvent → Bool
is_stream_terminal (terminal_marker task_id context_id status) = true
is_stream_terminal _ = false

expired_keys : Dict ℕ → ℕ → List String
expired_keys [] now = []
expired_keys ((task_id, deadline) ∷ d) now =
    let rest = expired_keys d now in if leb deadline now then task_id ∷ rest else rest

abbrev forget : EventBus → String → EventBus
forget bus task_id = record bus {
  purge_deadlines = Dict.pop bus.purge_deadlines task_id;
  replay_buffers = Dict.pop bus.replay_buffers task_id;
  event_counters = Dict.pop bus.event_counters task_id;
}

forget_all : EventBus → List String → EventBus
forget_all bus [] = bus
forget_all bus (task_id ∷ rest) = forget_all (forget bus task_id) rest

unfoldable pub purge_expired : EventBus → ℕ → EventBus
unfolding expired_keys forget_all
purge_expired bus now = forget_all bus (expired_keys bus.purge_deadlines now)

-- deque(maxlen=n).append(x)
abbrev pub append_bounded {ℓ} : {A : Type ℓ} → ℕ → List A → A → List A
append_bounded n xs x = drop (length (xs ++ x ∷ []) - n) (xs ++ x ∷ [])

abbrev pub counter_of : EventBus → String → ℕ
counter_of bus task_id = Dict.get_or bus.event_counters task_id 0

abbrev pub buffer_of : EventBus → String → List BufferedEvent
buffer_of bus task_id = Dict.get_or bus.replay_buffers task_id []

abbrev is_broken : SendOutcome → Bool
is_broken broken = true
is_broken _ = false

abbrev is_sent : SendOutcome → Bool
is_sent sent = true
is_sent _ = false

-- Drop the dead streams of a task, and its entry when none is left.
drop_dead : Dict (List ℕ) → String → (ℕ → SendOutcome) → Dict (List ℕ)
drop_dead subs task_id outcome = elim (Dict.get subs task_id) [
  | none ↦ subs
  | some [] ↦ subs
  | some (t ∷ streams) ↦ elim (keep (λ s. not (is_broken (outcome s))) (t ∷ streams)) [
    | [] ↦ Dict.pop subs task_id
    | s ∷ rest ↦ Dict.set subs task_id (s ∷ rest)
  ]
]

-- The revival of the task, the new identifier and the ring buffer.
abbrev pub stored : EventBus → String → StreamEvent → EventBus
stored live task_id event = record live {
  purge_deadlines = Dict.pop live.purge_deadlines task_id;
  event_counters = Dict.set live.event_counters task_id (counter_of live task_id + 1);
  replay_buffers = Dict.set live.replay_buffers task_id (
      append_bounded live.replay_buffer_size (buffer_of live task_id)
        (record { id = counter_of live task_id + 1; event = event }));
}

-- The identifier, the streams that took the event, and the bus afterwards.
unfoldable pub publish :
    EventBus → String → StreamEvent → ℕ → (ℕ → SendOutcome) → ℕ × List ℕ × EventBus
unfolding drop_dead
publish bus task_id event now outcome =
    let live = purge_expired bus now in
    let after = stored live task_id event in
    (
      counter_of live task_id + 1,
      keep (λ s. is_sent (outcome s)) (Dict.get_or live.subs task_id []),
      record after { subs = drop_dead live.subs task_id outcome },
    )

-- The bookmark that `subscribe` captures, and the bus with the stream registered.
unfoldable pub subscribe : EventBus → String → ℕ → ℕ × EventBus
subscribe bus task_id stream = (
  counter_of bus task_id,
  record bus { subs = Dict.set bus.subs task_id (Dict.get_or bus.subs task_id [] ++ stream ∷ []) },
)

-- list.remove, of the first occurrence
abbrev remove_stream : ℕ → List ℕ → List ℕ
remove_stream s [] = []
remove_stream s (x ∷ xs) = if eqb x s then xs else x ∷ remove_stream s xs

unfoldable pub unsubscribe : EventBus → String → ℕ → EventBus
unsubscribe bus task_id stream = elim (Dict.get bus.subs task_id) [
  | none ↦ bus
  | some [] ↦ bus
  | some (t ∷ streams) ↦ elim (remove_stream stream (t ∷ streams)) [
    | [] ↦ record bus { subs = Dict.pop bus.subs task_id }
    | s ∷ rest ↦ record bus { subs = Dict.set bus.subs task_id (s ∷ rest) }
  ]
]

unfoldable pub cleanup : EventBus → String → ℕ → EventBus
cleanup bus task_id now =
    purge_expired
      (record bus {
        subs = Dict.pop bus.subs task_id;
        purge_deadlines = Dict.set bus.purge_deadlines task_id (now + bus.replay_ttl);
      })
      now

-- The replay phase of `_iter_events`: what it yields, the last identifier, and whether it returned.
unfoldable pub replay : List BufferedEvent → ℕ → ℕ → List BufferedEvent × ℕ × Bool
replay [] after_id last = ([], last, false)
replay (b ∷ rest) after_id last =
    let (out, last', done) = replay rest after_id b.id in
    let skipped = replay rest after_id last in
    if ltb after_id b.id
    then (if is_stream_terminal b.event then (b ∷ [], b.id, true) else (b ∷ out, last', done))
    else skipped

-- The live phase, over what the stream delivers.
unfoldable pub live_events : List BufferedEvent → ℕ → List BufferedEvent
live_events [] last = []
live_events (b ∷ rest) last =
    let more = live_events rest last in
    if leb b.id last then more else if is_stream_terminal b.event then b ∷ [] else b ∷ more

-- `_iter_events`. A text that is no number counts as 0, and so does a negative number: no
-- identifier is below 1.
unfoldable pub iter_events :
    List BufferedEvent → List BufferedEvent → Option (Option ℕ) → ℕ → List BufferedEvent
unfolding replay live_events
iter_events buffer live none snapshot_id = live_events live snapshot_id
iter_events buffer live (some after) snapshot_id =
    let after_id : ℕ = elim after [ none ↦ 0 | some n ↦ n ] in
    let (out, last, done) = replay buffer after_id 0 in
    if done then out else out ++ live_events live last
