-- ===== src/Tests/Streams.antt =====
-- The theorems on the Redis broker, on a server made of lists: an entry stands at its identifier,
-- and its place is empty once it is acknowledged.
use a2akit.Prelude.{
  Bool, ◌⊎◌, ◌≢◌, ℕ, zero, suc, ◌≡◌, refl, ap, true, false, Option, none, some, List, [], ◌∷◌, ◌++◌,
  length, take, eqb, arith, if◌then◌else◌,
}
use a2akit.Runtime.{RunTask}
use a2akit.Redis.Server.{Entry, Redis, Documented, run}
use a2akit.Redis.Broker.{OperationHandle, receive, claim, nack}
use a2akit.Redis.Kept.{IsKept, Throughout, handling-IsKept}
use a2akit.Redis.Retry.{IsRetried, nack-IsRetried, retry_gap}
use a2akit.Redis.Cancel.{
  Channel, Delivers, noticed, listening, requested, before_set, Move, scope_moves, request_moves,
  server_moves, race, scope_step, request_step, server_step, at_start,
}
use a2akit.Redis.Cancel.Noticed.{Prompt, race_decided}
use a2akit.Tests.Data.{question}

abbrev at : List (Option Entry) → ℕ → Option Entry
at [] i = none
at (o ∷ os) zero = o
at (o ∷ os) (suc i) = at os i

abbrev clear : List (Option Entry) → ℕ → List (Option Entry)
clear [] i = []
clear (o ∷ os) zero = none ∷ os
clear (o ∷ os) (suc i) = o ∷ clear os i

record Streams : Type 0 where
  entries : List (Option Entry)
  dead : List Entry
  counts : ℕ → ℕ

abbrev server : Redis
server = record {
  State = Streams;
  outstanding = λ s i. at s.entries i;
  dead_letters = λ s. s.dead;
  crash_count = λ s i. s.counts i;
  next_id = λ s. length s.entries;
  has_room = λ s. true;
  xadd = λ e s. record s { entries = s.entries ++ some e ∷ [] };
  xadd_dead = λ e s. record s { dead = s.dead ++ e ∷ [] };
  xack = λ i s. record s { entries = clear s.entries i };
  hincrby = λ i s. record s { counts = λ j. if eqb i j then suc (s.counts j) else s.counts j };
  hdel = λ i s. record s { counts = λ j. if eqb i j then 0 else s.counts j };
}

at-length : (os : List (Option Entry)) → at os (length os) ≡ none
at-length [] = refl
at-length (o ∷ os) = at-length os

at-append_new : (os : List (Option Entry)) (o : Option Entry) → at (os ++ o ∷ []) (length os) ≡ o
at-append_new [] o = refl
at-append_new (x ∷ os) o = at-append_new os o

at-append_other :
    (os : List (Option Entry)) (o : Option Entry) (i : ℕ)
    → eqb i (length os) ≡ false
    → at (os ++ o ∷ []) i ≡ at os i
at-append_other [] o zero h = ground (arith, h)
at-append_other [] o (suc i) h = refl
at-append_other (x ∷ os) o zero h = refl
at-append_other (x ∷ os) o (suc i) h =
    let other : eqb i (length os) ≡ false = ground (arith, h) in at-append_other os o i other

at-clear : (os : List (Option Entry)) (i : ℕ) → at (clear os i) i ≡ none
at-clear [] i = refl
at-clear (o ∷ os) zero = refl
at-clear (o ∷ os) (suc i) = at-clear os i

at-clear_other :
    (os : List (Option Entry)) (i j : ℕ) → eqb i j ≡ false → at (clear os j) i ≡ at os i
at-clear_other [] i j h = refl
at-clear_other (o ∷ os) zero zero h = ground (arith, h)
at-clear_other (o ∷ os) zero (suc j) h = refl
at-clear_other (o ∷ os) (suc i) zero h = refl
at-clear_other (o ∷ os) (suc i) (suc j) h =
    let other : eqb i j ≡ false = ground (arith, h) in at-clear_other os i j other

length-clear : (os : List (Option Entry)) (i : ℕ) → length (clear os i) ≡ length os
length-clear [] i = refl
length-clear (o ∷ os) zero = refl
length-clear (o ∷ os) (suc i) = ap suc (length-clear os i)

server-Documented : Documented server
server-Documented = record {
  next_is_new = λ s. at-length s.entries;
  xadd_new = λ e s. at-append_new s.entries (some e);
  xadd_other = λ e s i room other. at-append_other s.entries (some e) i other;
  xadd_dead_letters = λ e s. refl;
  dead_added = λ e s room. refl;
  dead_outstanding = λ e s i. refl;
  xack_same = λ i s. at-clear s.entries i;
  xack_other = λ i j s other. at-clear_other s.entries i j other;
  xack_dead_letters = λ i s. refl;
  xack_room = λ i s. refl;
  xack_next = λ i s. length-clear s.entries i;
  hincrby_outstanding = λ i j s. refl;
  hincrby_room = λ i s. refl;
  hdel_outstanding = λ i j s. refl;
  hdel_dead_letters = λ i s. refl;
}

abbrev operation : RunTask
operation = record {
  params = record { message = question; tenant = none; configuration = none };
  is_new_task = true;
}

abbrev entry : Entry
entry = record { op = "run t1"; attempt = some 2; not_before = none; error = none }

abbrev streams : Streams
streams = record { entries = none ∷ (some entry ∷ []); dead = []; counts = λ i. 0 }

abbrev handle : OperationHandle
handle = record {
  msg_id = 1;
  operation = operation;
  serialized_op = "run t1";
  attempt = 2;
  max_retries = 3;
}

-- The entry has been claimed twice before.
handling-IsKept_example :
    Throughout server
      (IsKept server "run t1")
      (receive 3 (λ e. some operation) 1 entry 100).0
      streams
    × Throughout server
        (IsKept server "run t1")
        (claim 3 (λ e. some operation) 1 (some entry) 2 100).0
        streams
handling-IsKept_example =
    handling-IsKept server server-Documented 3 (λ e. some operation) 1 entry 2 100 streams refl refl

nack-IsRetried_example :
    (at (run server (nack handle 100 5) streams).entries 1 ≡ none)
    × IsRetried server handle 100 5 streams (run server (nack handle 100 5) streams)
nack-IsRetried_example =
    nack-IsRetried server server-Documented handle 100 5 entry streams refl refl

only_entry : (i : ℕ) (e : Entry) → at streams.entries i ≡ some e → e.op ≡ "run t1" → i ≡ 1
only_entry zero e h same = cc
only_entry (suc zero) e h same = refl
only_entry (suc (suc i)) e h same = cc

retry_gap_example : ¬ IsKept server "run t1" (run server (take 1 (nack handle 100 5)) streams)
retry_gap_example =
    retry_gap server server-Documented handle 100 5 streams (omega arith) only_entry refl

record Wire : Type 0 where
  key : Bool
  connected : Bool
  inbox : Bool

abbrev channel : Channel
channel = record {
  State = Wire;
  exists = λ s. s.key;
  is_subscribed = λ s. s.connected;
  has_message = λ s. s.inbox;
  set = λ s. record s { key = true };
  publish = λ s. record s { inbox = s.connected };
  subscribe = λ s. record s { connected = true };
}

channel-Delivers : Delivers channel
channel-Delivers = record {
  set_exists = λ s. refl;
  publish_exists = λ s. refl;
  subscribe_exists = λ s. refl;
  subscribe_subscribed = λ s. refl;
  set_subscribed = λ s. refl;
  publish_subscribed = λ s. refl;
  set_message = λ s. refl;
  subscribe_message = λ s. refl;
  publish_delivers = λ s subscribed. subscribed;
}

abbrev silent : Wire
silent = record { key = false; connected = false; inbox = false }

-- The key is set just after the scope has looked for it the first time.
abbrev moves : List Move
moves =
    scope_moves
    ∷ (request_moves ∷ (request_moves ∷ (scope_moves ∷ (server_moves ∷ (scope_moves ∷ [])))))

-- The request comes after the second look for the key, and before the server has carried out the
-- SUBSCRIBE: the scope never hears of it.
abbrev late : List Move
late =
    scope_moves
    ∷ (scope_moves
        ∷ (scope_moves
            ∷ (request_moves
                ∷ (request_moves ∷ (server_moves ∷ (scope_moves ∷ (scope_moves ∷ [])))))))

late_missed :
    ((race channel late (at_start silent)).request ≡ requested)
    × ((race channel late (at_start silent)).scope ≡ listening)
unfolding race scope_step request_step server_step
late_missed = (refl, refl)

moves-Prompt : Prompt channel moves (at_start silent)
unfolding scope_step request_step server_step
moves-Prompt = (λ e. cc, (λ e. cc, (λ e. refl, tt)))

race_decided_example :
    (((race channel moves (at_start silent)).request ≢ requested)
      ⊎ ((scope_step channel (scope_step channel (race channel moves (at_start silent)))).scope
          ≡ noticed))
    × (((race channel moves (at_start silent)).scope ≢ noticed)
        ⊎ ((race channel moves (at_start silent)).request ≢ before_set))
race_decided_example = race_decided channel channel-Delivers moves silent refl refl moves-Prompt
