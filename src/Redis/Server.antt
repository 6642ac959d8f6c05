-- ===== src/Redis/Server.antt =====
-- Redis, as the broker uses it: one stream with one consumer group, a stream of dead letters, and a
-- hash of counters. The server is an argument; the identifier of an entry, two numbers in Redis, is
-- one here.
use a2akit.Prelude.{ℕ, String, ◌≡◌, Bool, true, false, eqb, Option, none, some, List, [], ◌∷◌, ◌++◌}

-- The fields of an entry of a stream.
pub record Entry : Type 0 where
  pub op : String
  pub attempt : Option ℕ
  pub not_before : Option ℕ
  pub error : Option String

-- `outstanding` is the entry under an identifier that the group still has to handle: not delivered
-- yet, or delivered and not acknowledged. `has_room` says that an XADD trims neither stream.
pub record Redis : Type 1 where
  pub State : Type 0
  pub outstanding : State → ℕ → Option Entry
  pub dead_letters : State → List Entry
  pub crash_count : State → ℕ → ℕ
  pub next_id : State → ℕ
  pub has_room : State → Bool
  pub xadd : Entry → State → State
  pub xadd_dead : Entry → State → State
  pub xack : ℕ → State → State
  pub hincrby : ℕ → State → State
  pub hdel : ℕ → State → State

-- What the documentation of Redis says of these: XADD adds an entry under a new identifier, XACK
-- takes one off the group, and no command touches what it does not name.
pub record Documented (r : Redis) : Type 0 where
  pub next_is_new : (s : r.State) → r.outstanding s (r.next_id s) ≡ none
  pub xadd_new : (e : Entry) (s : r.State) → r.outstanding (r.xadd e s) (r.next_id s) ≡ some e
  pub xadd_other :
      (e : Entry) (s : r.State) (i : ℕ)
      → r.has_room s ≡ true
      → eqb i (r.next_id s) ≡ false
      → r.outstanding (r.xadd e s) i ≡ r.outstanding s i
  pub xadd_dead_letters : (e : Entry) (s : r.State) → r.dead_letters (r.xadd e s) ≡ r.dead_letters s
  pub dead_added :
      (e : Entry) (s : r.State)
      → r.has_room s ≡ true
      → r.dead_letters (r.xadd_dead e s) ≡ r.dead_letters s ++ e ∷ []
  pub dead_outstanding :
      (e : Entry) (s : r.State) (i : ℕ) → r.outstanding (r.xadd_dead e s) i ≡ r.outstanding s i
  pub xack_same : (i : ℕ) (s : r.State) → r.outstanding (r.xack i s) i ≡ none
  pub xack_other :
      (i j : ℕ) (s : r.State) → eqb i j ≡ false → r.outstanding (r.xack j s) i ≡ r.outstanding s i
  pub xack_dead_letters : (i : ℕ) (s : r.State) → r.dead_letters (r.xack i s) ≡ r.dead_letters s
  pub xack_room : (i : ℕ) (s : r.State) → r.has_room (r.xack i s) ≡ r.has_room s
  pub xack_next : (i : ℕ) (s : r.State) → r.next_id (r.xack i s) ≡ r.next_id s
  pub hincrby_outstanding :
      (i j : ℕ) (s : r.State) → r.outstanding (r.hincrby i s) j ≡ r.outstanding s j
  pub hincrby_room : (i : ℕ) (s : r.State) → r.has_room (r.hincrby i s) ≡ r.has_room s
  pub hdel_outstanding : (i j : ℕ) (s : r.State) → r.outstanding (r.hdel i s) j ≡ r.outstanding s j
  pub hdel_dead_letters : (i : ℕ) (s : r.State) → r.dead_letters (r.hdel i s) ≡ r.dead_letters s

pub data Command : Type 0 where
  xadd xadd_dead : Entry → Command
  xack hincrby hdel : ℕ → Command

-- What Redis does at once: a command, or those of a MULTI.
abbrev pub Step : Type 0
Step = List Command

module _ (r : Redis) where
  abbrev pub run_command : Command → r.State → r.State
  run_command (xadd e) s = r.xadd e s
  run_command (xadd_dead e) s = r.xadd_dead e s
  run_command (xack i) s = r.xack i s
  run_command (hincrby i) s = r.hincrby i s
  run_command (hdel i) s = r.hdel i s

  abbrev pub run_step : Step → r.State → r.State
  run_step [] s = s
  run_step (c ∷ cs) s = run_step cs (run_command c s)

  abbrev pub run : List Step → r.State → r.State
  run [] s = s
  run (c ∷ cs) s = run cs (run_step c s)
