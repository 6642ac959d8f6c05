-- ===== src/Redis/Cancel/Noticed.antt =====
-- No cancellation is missed where the server has carried out the SUBSCRIBE in time.
use a2akit.Prelude.{
  ◌≡◌, ◌∙◌, refl, Bool, true, false, List, [], ◌∷◌, if◌then◌else◌, inl, inr, ◌⊎◌, ◌≢◌,
}
use a2akit.Redis.Cancel.{
  Channel, Delivers, Scope, starting, checked, rechecking, listening, noticed, Request, before_set,
  before_publish, requested, Subscription, unsent, in_flight, served, Race, scope_step,
  request_step, server_step, scope_step_at, request_step_at, server_step_at, Move, scope_moves,
  request_moves, server_moves, race, at_start,
}

module _ (c : Channel) where
  abbrev pub IsIdle : c.State → Type 0
  IsIdle s = (c.exists s ≡ false) × (c.has_message s ≡ false)

  -- Before the server has carried out the SUBSCRIBE, the key tells whether the request has begun.
  abbrev pub Unheard : Request → c.State → Type 0
  Unheard before_set s = IsIdle s
  Unheard before_publish s = c.exists s ≡ true
  Unheard requested s = c.exists s ≡ true

  -- Afterwards, until the second look for the key.
  abbrev pub Rechecking : Request → c.State → Type 0
  Rechecking before_set s = (c.is_subscribed s ≡ true) × IsIdle s
  Rechecking before_publish s = (c.exists s ≡ true) × (c.is_subscribed s ≡ true)
  Rechecking requested s = c.exists s ≡ true

  abbrev pub Listening : Request → c.State → Type 0
  Listening before_set s = (c.is_subscribed s ≡ true) × IsIdle s
  Listening before_publish s = c.is_subscribed s ≡ true
  Listening requested s = c.has_message s ≡ true

  abbrev pub IsBegun : Request → Type 0
  IsBegun before_set = true ≡ false
  IsBegun before_publish = Unit
  IsBegun requested = Unit

  -- What is known of the server in each place.
  abbrev pub ConsistentAt : Scope → Subscription → Request → c.State → Type 0
  ConsistentAt starting unsent r s = Unheard r s
  ConsistentAt checked unsent r s = Unheard r s
  ConsistentAt rechecking in_flight r s = Unheard r s
  ConsistentAt rechecking served r s = Rechecking r s
  ConsistentAt listening served r s = Listening r s
  ConsistentAt noticed b r s = IsBegun r
  ConsistentAt _ _ r s = true ≡ false

  abbrev pub Consistent : Race c.State → Type 0
  Consistent g = ConsistentAt g.scope g.subscription g.request g.server

  branch-Consistent :
      (b : Bool) (other : Scope) (u : Subscription) (r : Request) (s : c.State)
      → (b ≡ true → IsBegun r)
      → (b ≡ false → ConsistentAt other u r s)
      → ConsistentAt (if b then noticed else other) u r s
  branch-Consistent true other u r s n h = n refl
  branch-Consistent false other u r s n h = h refl

  -- Whenever the scope looks for the key the second time, the server has carried out the SUBSCRIBE.
  abbrev pub Prompt : List Move → Race c.State → Type 0
  Prompt [] g = Unit
  Prompt (scope_moves ∷ ms) g =
      (g.scope ≡ rechecking → g.subscription ≡ served) × Prompt ms (scope_step c g)
  Prompt (request_moves ∷ ms) g = Prompt ms (request_step c g)
  Prompt (server_moves ∷ ms) g = Prompt ms (server_step c g)

module _ (c : Channel) (d : Delivers c) where
  starting-Consistent :
      (r : Request) (s : c.State)
      → Unheard c r s
      → ConsistentAt c (if c.exists s then noticed else checked) unsent r s
  starting-Consistent before_set s h =
      branch-Consistent c (c.exists s) checked unsent before_set s (λ e. cc) (λ e. h)
  starting-Consistent before_publish s h =
      branch-Consistent c (c.exists s) checked unsent before_publish s (λ e. tt) (λ e. h)
  starting-Consistent requested s h =
      branch-Consistent c (c.exists s) checked unsent requested s (λ e. tt) (λ e. h)

  Rechecking-Consistent :
      (r : Request) (s : c.State)
      → Rechecking c r s
      → ConsistentAt c (if c.exists s then noticed else listening) served r s
  Rechecking-Consistent before_set s h =
      branch-Consistent c (c.exists s) listening served before_set s (λ e. cc) (λ e. h)
  Rechecking-Consistent before_publish s h =
      branch-Consistent c (c.exists s) listening served before_publish s (λ e. tt) (λ e. h.1)
  Rechecking-Consistent requested s h =
      branch-Consistent c (c.exists s) listening served requested s (λ e. tt) (λ e. cc)

  listening-Consistent :
      (r : Request) (s : c.State)
      → Listening c r s
      → ConsistentAt c (if c.has_message s then noticed else listening) served r s
  listening-Consistent before_set s h =
      branch-Consistent c (c.has_message s) listening served before_set s (λ e. cc) (λ e. h)
  listening-Consistent before_publish s h =
      branch-Consistent c (c.has_message s) listening served before_publish s (λ e. tt) (λ e. h)
  listening-Consistent requested s h =
      branch-Consistent c (c.has_message s) listening served requested s (λ e. tt) (λ e. h)

  abbrev at : Scope → Subscription → Request → c.State → Race c.State
  at p u r s = record { server = s; scope = p; subscription = u; request = r }

  scope_step_at-Consistent :
      (p : Scope) (u : Subscription) (r : Request) (s : c.State)
      → (p ≡ rechecking → u ≡ served)
      → ConsistentAt c p u r s
      → Consistent c (scope_step_at c p (at p u r s))
  scope_step_at-Consistent starting unsent r s q h = starting-Consistent r s h
  scope_step_at-Consistent starting in_flight r s q h = cc
  scope_step_at-Consistent starting served r s q h = cc
  scope_step_at-Consistent checked unsent r s q h = h
  scope_step_at-Consistent checked in_flight r s q h = cc
  scope_step_at-Consistent checked served r s q h = cc
  scope_step_at-Consistent rechecking unsent r s q h = cc
  scope_step_at-Consistent rechecking in_flight r s q h = cc (q refl)
  scope_step_at-Consistent rechecking served r s q h = Rechecking-Consistent r s h
  scope_step_at-Consistent listening unsent r s q h = cc
  scope_step_at-Consistent listening in_flight r s q h = cc
  scope_step_at-Consistent listening served r s q h = listening-Consistent r s h
  scope_step_at-Consistent noticed u r s q h = h

  subscribed-Consistent :
      (r : Request) (s : c.State) → Unheard c r s → Rechecking c r (c.subscribe s)
  subscribed-Consistent before_set s (key, inbox) =
      (d.subscribe_subscribed s, (d.subscribe_exists s ∙ key, d.subscribe_message s ∙ inbox))
  subscribed-Consistent before_publish s h = (d.subscribe_exists s ∙ h, d.subscribe_subscribed s)
  subscribed-Consistent requested s h = d.subscribe_exists s ∙ h

  server_step_at-Consistent :
      (p : Scope) (u : Subscription) (r : Request) (s : c.State)
      → ConsistentAt c p u r s
      → Consistent c (server_step_at c u (at p u r s))
  server_step_at-Consistent p unsent r s h = h
  server_step_at-Consistent p served r s h = h
  server_step_at-Consistent starting in_flight r s h = cc
  server_step_at-Consistent checked in_flight r s h = cc
  server_step_at-Consistent rechecking in_flight r s h = subscribed-Consistent r s h
  server_step_at-Consistent listening in_flight r s h = cc
  server_step_at-Consistent noticed in_flight r s h = h

  Unheard-Consistent :
      (r : Request) (s : c.State)
      → Unheard c r s
      → let g = request_step_at c r (at starting unsent r s) in Unheard c g.request g.server
  Unheard-Consistent before_set s h = d.set_exists s
  Unheard-Consistent before_publish s h = d.publish_exists s ∙ h
  Unheard-Consistent requested s h = h

  request_step_at-Consistent :
      (p : Scope) (u : Subscription) (r : Request) (s : c.State)
      → ConsistentAt c p u r s
      → Consistent c (request_step_at c r (at p u r s))
  request_step_at-Consistent starting unsent before_set s h = Unheard-Consistent before_set s h
  request_step_at-Consistent starting unsent before_publish s h =
      Unheard-Consistent before_publish s h
  request_step_at-Consistent checked unsent before_set s h = Unheard-Consistent before_set s h
  request_step_at-Consistent checked unsent before_publish s h =
      Unheard-Consistent before_publish s h
  request_step_at-Consistent rechecking in_flight before_set s h = Unheard-Consistent before_set s h
  request_step_at-Consistent rechecking in_flight before_publish s h =
      Unheard-Consistent before_publish s h
  request_step_at-Consistent rechecking served before_set s h =
      (d.set_exists s, d.set_subscribed s ∙ h.0)
  request_step_at-Consistent rechecking served before_publish s h = d.publish_exists s ∙ h.0
  request_step_at-Consistent listening served before_set s h = d.set_subscribed s ∙ h.0
  request_step_at-Consistent listening served before_publish s h = d.publish_delivers s h
  request_step_at-Consistent noticed u before_set s h = tt
  request_step_at-Consistent noticed u before_publish s h = tt
  request_step_at-Consistent p u requested s h = h
  request_step_at-Consistent starting in_flight before_set s h = cc
  request_step_at-Consistent starting in_flight before_publish s h = cc
  request_step_at-Consistent starting served before_set s h = cc
  request_step_at-Consistent starting served before_publish s h = cc
  request_step_at-Consistent checked in_flight before_set s h = cc
  request_step_at-Consistent checked in_flight before_publish s h = cc
  request_step_at-Consistent checked served before_set s h = cc
  request_step_at-Consistent checked served before_publish s h = cc
  request_step_at-Consistent rechecking unsent before_set s h = cc
  request_step_at-Consistent rechecking unsent before_publish s h = cc
  request_step_at-Consistent listening unsent before_set s h = cc
  request_step_at-Consistent listening unsent before_publish s h = cc
  request_step_at-Consistent listening in_flight before_set s h = cc
  request_step_at-Consistent listening in_flight before_publish s h = cc

  race-Consistent :
      (ms : List Move) (g : Race c.State)
      → Prompt c ms g
      → Consistent c g
      → Consistent c (race c ms g)
  unfolding race scope_step request_step server_step
  race-Consistent [] g q h = h
  race-Consistent (scope_moves ∷ ms) g (now, q) h =
      race-Consistent ms (scope_step c g) q
        (scope_step_at-Consistent g.scope g.subscription g.request g.server now h)
  race-Consistent (request_moves ∷ ms) g q h =
      race-Consistent ms (request_step c g) q
        (request_step_at-Consistent g.scope g.subscription g.request g.server h)
  race-Consistent (server_moves ∷ ms) g q h =
      race-Consistent ms (server_step c g) q
        (server_step_at-Consistent g.scope g.subscription g.request g.server h)

  -- Two more steps of the scope, once the request is done.
  requested_noticed :
      (p : Scope) (u : Subscription) (s : c.State)
      → ConsistentAt c p u requested s
      → (scope_step c (scope_step c (at p u requested s))).scope ≡ noticed
  unfolding scope_step
  requested_noticed starting unsent s h = rw h refl
  requested_noticed checked unsent s h = rw h refl
  requested_noticed rechecking in_flight s h = rw h refl
  requested_noticed rechecking served s h = rw h refl
  requested_noticed listening served s h = rw h refl
  requested_noticed noticed u s h = refl
  requested_noticed starting in_flight s h = cc
  requested_noticed starting served s h = cc
  requested_noticed checked in_flight s h = cc
  requested_noticed checked served s h = cc
  requested_noticed rechecking unsent s h = cc
  requested_noticed listening unsent s h = cc
  requested_noticed listening in_flight s h = cc

  decided :
      (p : Scope) (u : Subscription) (r : Request) (s : c.State)
      → ConsistentAt c p u r s
      → ((r ≢ requested) ⊎ ((scope_step c (scope_step c (at p u r s))).scope ≡ noticed))
        × ((p ≢ noticed) ⊎ (r ≢ before_set))
  decided p u requested s h = (inr (requested_noticed p u s h), inr (λ e. cc))
  decided p u before_publish s h = (inl (λ e. cc), inr (λ e. cc))
  decided starting u before_set s h = (inl (λ e. cc), inl (λ e. cc))
  decided checked u before_set s h = (inl (λ e. cc), inl (λ e. cc))
  decided rechecking u before_set s h = (inl (λ e. cc), inl (λ e. cc))
  decided listening u before_set s h = (inl (λ e. cc), inl (λ e. cc))
  decided noticed u before_set s h = cc

  -- With the laws of Redis, no key set and no message at the start, no command that fails and no key
  -- that expires: in every interleaving of a scope that starts, of a request for the cancellation and
  -- of the server, in which the server has carried out the scope's SUBSCRIBE when the scope looks
  -- for the key the second time, once the request is done the scope's event is set within two more
  -- of its own steps; and the event is set only if the request has begun.
  pub race_decided :
      (ms : List Move) (s : c.State)
      → c.exists s ≡ false
      → c.has_message s ≡ false
      → Prompt c ms (at_start s)
      → (((race c ms (at_start s)).request ≢ requested)
          ⊎ ((scope_step c (scope_step c (race c ms (at_start s)))).scope ≡ noticed))
        × (((race c ms (at_start s)).scope ≢ noticed)
            ⊎ ((race c ms (at_start s)).request ≢ before_set))
  race_decided ms s unset empty prompt =
      let g = race c ms (at_start s) in
      decided g.scope g.subscription g.request g.server
        (race-Consistent ms (at_start s) prompt (unset, empty))
