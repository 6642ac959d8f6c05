-- ===== src/Redis/Cancel.antt =====
-- `RedisCancelScope` and `RedisCancelRegistry`: a worker's scope that starts while another process
-- asks for the cancellation. Each command to the server is a step, and the steps of the two
-- processes interleave. SUBSCRIBE is only sent by the scope, on a connection of its own: the server
-- carries it out in a step of its own, which may come after the scope's next command on another
-- connection. The server is an argument; no command fails, and the key does not expire meanwhile
-- (then the forced cancellation of the task manager is what is left).
pub mod Noticed
use a2akit.Prelude.{◌≡◌, Bool, true, List, [], ◌∷◌, if◌then◌else◌}

-- The key of one task and its channel. `is_subscribed` is about the scope's own connection, and
-- `has_message` says that a message waits there.
pub record Channel : Type 1 where
  pub State : Type 0
  pub exists : State → Bool
  pub is_subscribed : State → Bool
  pub has_message : State → Bool
  pub set : State → State
  pub publish : State → State
  pub subscribe : State → State

-- What the documentation of Redis says of these: a key that was set exists, a message that is
-- published on a channel reaches each connection that is subscribed to it, and nothing else makes a
-- message.
pub record Delivers (c : Channel) : Type 0 where
  pub set_exists : (s : c.State) → c.exists (c.set s) ≡ true
  pub publish_exists : (s : c.State) → c.exists (c.publish s) ≡ c.exists s
  pub subscribe_exists : (s : c.State) → c.exists (c.subscribe s) ≡ c.exists s
  pub subscribe_subscribed : (s : c.State) → c.is_subscribed (c.subscribe s) ≡ true
  pub set_subscribed : (s : c.State) → c.is_subscribed (c.set s) ≡ c.is_subscribed s
  pub publish_subscribed : (s : c.State) → c.is_subscribed (c.publish s) ≡ c.is_subscribed s
  pub set_message : (s : c.State) → c.has_message (c.set s) ≡ c.has_message s
  pub subscribe_message : (s : c.State) → c.has_message (c.subscribe s) ≡ c.has_message s
  pub publish_delivers :
      (s : c.State) → c.is_subscribed s ≡ true → c.has_message (c.publish s) ≡ true

-- Where `_start` and then `_listen` are: before the first EXISTS, before sending SUBSCRIBE, before
-- the second EXISTS, in the loop over the messages, or done, with the event set.
pub data Scope : Type 0 where
  starting checked rechecking listening noticed : Scope

-- Where `request_cancel` is: before SET, before PUBLISH, or done.
pub data Request : Type 0 where
  before_set before_publish requested : Request

-- The scope's SUBSCRIBE: not sent, on its way, or carried out by the server.
pub data Subscription : Type 0 where
  unsent in_flight served : Subscription

pub record Race (State : Type 0) : Type 0 where
  pub server : State
  pub scope : Scope
  pub subscription : Subscription
  pub request : Request

module _ (c : Channel) where
  -- One step of the scope.
  abbrev pub scope_step_at : Scope → Race c.State → Race c.State
  scope_step_at starting g = record g { scope = if c.exists g.server then noticed else checked }
  scope_step_at checked g = record g { subscription = in_flight; scope = rechecking }
  scope_step_at rechecking g = record g { scope = if c.exists g.server then noticed else listening }
  scope_step_at listening g = record g {
    scope = if c.has_message g.server then noticed else listening;
  }
  scope_step_at noticed g = g

  unfoldable pub scope_step : Race c.State → Race c.State
  scope_step g = scope_step_at g.scope g

  -- The server gets to the SUBSCRIBE.
  abbrev pub server_step_at : Subscription → Race c.State → Race c.State
  server_step_at unsent g = g
  server_step_at in_flight g = record g { server = c.subscribe g.server; subscription = served }
  server_step_at served g = g

  unfoldable pub server_step : Race c.State → Race c.State
  server_step g = server_step_at g.subscription g

  -- One step of `request_cancel`.
  abbrev pub request_step_at : Request → Race c.State → Race c.State
  request_step_at before_set g = record g { server = c.set g.server; request = before_publish }
  request_step_at before_publish g = record g { server = c.publish g.server; request = requested }
  request_step_at requested g = g

  unfoldable pub request_step : Race c.State → Race c.State
  request_step g = request_step_at g.request g

-- Who moves.
pub data Move : Type 0 where
  scope_moves request_moves server_moves : Move

module _ (c : Channel) where
  unfoldable pub race : List Move → Race c.State → Race c.State
  race [] g = g
  race (scope_moves ∷ ms) g = race ms (scope_step c g)
  race (request_moves ∷ ms) g = race ms (request_step c g)
  race (server_moves ∷ ms) g = race ms (server_step c g)

-- A scope that was just made by `on_cancel`, and a request that is about to be made.
abbrev pub at_start : {State : Type 0} → State → Race State
at_start s = record { server = s; scope = starting; subscription = unsent; request = before_set }
