-- ===== src/Manager/Messages/Settled.antt =====
-- Messages and tasks that have ended.
use a2akit.Prelude.{ℕ, ℤ, String, ◌≡◌, Bool, true, Option, none, some, List}
use a2akit.Wire.{Task, TaskState, Message, SendMessageRequest, is_terminal}
use a2akit.EventBus.{BufferedEvent}
use a2akit.Push.Store.{PushConfig}
use a2akit.Manager.Settled.{submit_task-IsSettled}
use a2akit.Manager.Messages.{
  open_context, tag_tenant, store_inline, Answer, answer, answer_with, trimmed_answer,
  with_subscription, wait_for, reply_else, process, send_message,
}
use a2akit.Manager.Messages.Stream.{reload, trimmed_task, streamed, process_stream, stream_message}
use a2akit.Runtime.{Act, Background, spawn, load_trimmed}
use a2akit.Runtime.Steady.{Steady, steady_rules}
use a2akit.Runtime.Settled.{IsSettled, load-IsSettled, store-IsSettled, pause-IsSettled}

module _ (k : String) (s : TaskState) (ended : is_terminal s ≡ true) where
  spawn-IsSettled : (job : Background) → Steady (IsSettled k s) (spawn job)
  unfolding spawn
  spawn-IsSettled job = record { holds = λ w p. p }

  open_context-IsSettled : (m : Message) → Steady (IsSettled k s) (open_context m)
  unfolding open_context
  open_context-IsSettled m = record { holds = λ w p. p }

  store_inline-IsSettled :
      (j : String) (c : Option PushConfig) → Steady (IsSettled k s) (store_inline j c)
  unfolding store_inline
  store_inline-IsSettled j none = record { holds = λ w p. p }
  store_inline-IsSettled j (some c) = record { holds = λ w p. p }

  with_subscription-IsSettled :
      {A : Type 0} (j : String) (stream : ℕ) (body : ℕ → List BufferedEvent → Act A)
      → ((n : ℕ) (b : List BufferedEvent) → Steady (IsSettled k s) (body n b))
      → Steady (IsSettled k s) (with_subscription j stream body)
  unfolding with_subscription
  with_subscription-IsSettled j stream body h = record { holds = λ w p. (h _ _).holds _ p }

  tag_tenant-IsSettled :
      (b : Bool) (j : String) (t : Option String) → Steady (IsSettled k s) (tag_tenant b j t)
  unfolding tag_tenant
  tag_tenant-IsSettled b j t = search (steady_rules, store-IsSettled k s ended)

  load_trimmed-IsSettled : (j : String) (n : ℤ) → Steady (IsSettled k s) (load_trimmed j n)
  unfolding load_trimmed
  load_trimmed-IsSettled j n = record { holds = λ w p. pause-IsSettled k s ended w p }

  trimmed_answer-IsSettled :
      (j : String) (t : Task) (n : Option ℤ) → Steady (IsSettled k s) (trimmed_answer j t n)
  trimmed_answer-IsSettled j t none = search steady_rules
  trimmed_answer-IsSettled j t (some n) = search (steady_rules, load_trimmed-IsSettled)

  reply_else-IsSettled :
      (m : Option Message) (a : Act Answer)
      → Steady (IsSettled k s) a
      → Steady (IsSettled k s) (reply_else m a)
  reply_else-IsSettled none a h = h
  reply_else-IsSettled (some m) a h = search steady_rules

  answer_with-IsSettled :
      (t : Task) (n : Option ℤ) (found : Option Task)
      → Steady (IsSettled k s) (answer_with t n found)
  answer_with-IsSettled t n found = search (reply_else-IsSettled, trimmed_answer-IsSettled)

  answer-IsSettled : (t : Task) (n : Option ℤ) → Steady (IsSettled k s) (answer t n)
  unfolding answer
  answer-IsSettled t n = search (steady_rules, load-IsSettled k s ended, answer_with-IsSettled)

  wait_for-IsSettled :
      (j : String) (job : Background) (stream : ℕ) (live : List BufferedEvent)
      → Steady (IsSettled k s) (wait_for j job stream live)
  unfolding wait_for
  wait_for-IsSettled j job stream live =
      search (steady_rules, with_subscription-IsSettled, spawn-IsSettled) depth 7

  process-IsSettled :
      (p : SendMessageRequest) (c : String) (stream : ℕ) (live : List BufferedEvent)
      (r : Task × Bool)
      → Steady (IsSettled k s) (process p c stream live r)
  unfolding process
  process-IsSettled p c stream live (t, should_enqueue) =
      search
        (
          steady_rules, tag_tenant-IsSettled, store_inline-IsSettled, wait_for-IsSettled,
          reply_else-IsSettled, spawn-IsSettled, answer-IsSettled,
        )
        depth 12

  reload-IsSettled : (j : String) (t : Task) (n : Option ℤ) → Steady (IsSettled k s) (reload j t n)
  reload-IsSettled j t none = search (steady_rules, load-IsSettled k s ended)
  reload-IsSettled j t (some n) = search (steady_rules, load_trimmed-IsSettled)

  trimmed_task-IsSettled :
      (j : String) (t : Task) (n : Option ℤ) → Steady (IsSettled k s) (trimmed_task j t n)
  trimmed_task-IsSettled j t none = search steady_rules
  trimmed_task-IsSettled j t (some n) = reload-IsSettled j t (some n)

  streamed-IsSettled :
      (b : Bool) (job : Background) (n : Option ℤ) (live : List BufferedEvent) (t : Task) (m : ℕ)
      (buffer : List BufferedEvent)
      → Steady (IsSettled k s) (streamed b job n live t m buffer)
  unfolding streamed
  streamed-IsSettled b job n live t m buffer =
      search (steady_rules, spawn-IsSettled, reload-IsSettled) depth 7

  process_stream-IsSettled :
      (p : SendMessageRequest) (c : String) (stream : ℕ) (live : List BufferedEvent)
      (r : Task × Bool)
      → Steady (IsSettled k s) (process_stream p c stream live r)
  unfolding process_stream
  process_stream-IsSettled p c stream live (t, should_enqueue) =
      search
        (
          steady_rules, tag_tenant-IsSettled, store_inline-IsSettled, trimmed_task-IsSettled,
          with_subscription-IsSettled, streamed-IsSettled,
        )
        depth 12

  -- Sending a message, blocking or not, and streaming one, each with other writers acting before
  -- each storage call, leave a task that has ended in its state, as long as no one deletes it or
  -- creates a task under its identifier.
  pub send_message-IsSettled :
      (modes : List String) (p : SendMessageRequest) (stream : ℕ) (live : List BufferedEvent)
      → Steady (IsSettled k s) (send_message modes p stream live)
        × Steady (IsSettled k s) (stream_message modes p stream live)
  unfolding send_message stream_message
  send_message-IsSettled modes p stream live = (
    search
        (steady_rules, open_context-IsSettled, submit_task-IsSettled k s ended, process-IsSettled)
        depth 7,
    search
        (
          steady_rules,
          open_context-IsSettled,
          submit_task-IsSettled k s ended,
          process_stream-IsSettled,
        )
        depth 7,
  )
