-- ===== src/Worker/Adapter/Deliveries.antt =====
-- The acknowledgement of an operation, and its deliveries over the queue of broker/memory.py, whose
-- `nack` puts the operation back with one attempt more.
use a2akit.Prelude.{
  ℕ, zero, suc, ◌+◌, ◌<◌, ◌≡◌, ◌⊎◌, inl, inr, refl, Bool, true, false, Option, none, some, List, [],
  ◌∷◌, any, any-append, String, Bool-cases, ◌≤◌, ltb, if◌then◌else◌, arith, ◌*◌,
}
use a2akit.Errors.{Result, ok, err, is_cancellation}
use a2akit.Runtime.{World, Act, RunTask}
use a2akit.Worker.Adapter.Handle.{
  Handle, Reply, acked, nacked, min, give_up, after_failure, after_dispatch, handle_op_inner,
}

-- The queue's answer to the replies: whether the operation is delivered again.
abbrev pub is_requeue : Reply → Bool
is_requeue (acked b) = false
is_requeue (nacked d b) = b

-- InMemoryOperationHandle.nack: the new handle's calls succeed or fail on their own. Whether the
-- `ack` and the `nack` of each attempt succeed is given.
abbrev pub requeued : (ℕ → Bool × Bool) → Handle → Handle
requeued works h =
    let (ack_works, nack_works) = works (h.attempt + 1) in
    record h { attempt = h.attempt + 1; ack_works = ack_works; nack_works = nack_works }

-- The deliveries of one operation, at most as many as the fuel: the last one's replies and the
-- world that they leave, or nothing if the fuel does not reach.
unfoldable pub deliveries :
    ℕ
    → (RunTask → Act (Unit {0}))
    → ℕ
    → (ℕ → Bool × Bool)
    → Handle
    → World
    → Option (List Reply × World)
deliveries zero dispatch max_retries works h w = none
deliveries (suc n) dispatch max_retries works h w =
    let (replies, w') = handle_op_inner dispatch max_retries h w in
    let rest = deliveries n dispatch max_retries works (requeued works h) w' in
    if any is_requeue replies then rest else some (replies, w')

-- Exactly one acknowledgement, or a nack that asks for another delivery while attempts are left.
abbrev pub Settles : ℕ → Handle → List Reply → Type 0
Settles max_retries h replies =
    (replies ≡ acked true ∷ [])
    ⊎ ((replies ≡ nacked (min (h.attempt * 2) 30) true ∷ []) × (h.attempt < max_retries))

-- The dispatch was not cancelled.
abbrev pub Ran : Result (Unit {0}) → Type 0
Ran (ok x) = Unit
Ran (err e) = is_cancellation e ≡ false

module _ (max_retries : ℕ) (h : Handle) where
  after_failure-Settles :
      (w : World)
      → h.ack_works ≡ true
      → h.nack_works ≡ true
      → Settles max_retries h (after_failure h max_retries [] w).0
  unfolding after_failure give_up
  after_failure-Settles w a n = elim (Bool-cases (ltb h.attempt max_retries)) [
    | inl t ↦ rw (t, n) (inr (refl, ground arith))
    | inr f ↦ rw (f, a) (inl refl)
  ]

  after_dispatch-Settles :
      (r : Result (Unit {0})) (w : World)
      → h.ack_works ≡ true
      → h.nack_works ≡ true
      → Ran r
      → Settles max_retries h (after_dispatch h max_retries r w).0
  unfolding after_dispatch
  after_dispatch-Settles (ok x) w a n c = rw a (inl refl)
  after_dispatch-Settles (err e) w a n c = rw c (after_failure-Settles w a n)

  -- At the last attempt nothing is put back.
  give_up_last :
      (reason : String) (replies : List Reply) (w : World)
      → any is_requeue replies ≡ false
      → any is_requeue (give_up h reason replies w).0 ≡ false
  unfolding give_up
  give_up_last reason replies w q =
      rw (any-append is_requeue replies (acked h.ack_works ∷ []), q) refl

  after_failure_last :
      (replies : List Reply) (w : World)
      → ltb h.attempt max_retries ≡ false
      → any is_requeue replies ≡ false
      → any is_requeue (after_failure h max_retries replies w).0 ≡ false
  unfolding after_failure
  after_failure_last replies w l q = rw l (give_up_last _ replies w q)

  after_dispatch_last :
      (r : Result (Unit {0})) (w : World)
      → ltb h.attempt max_retries ≡ false
      → any is_requeue (after_dispatch h max_retries r w).0 ≡ false
  unfolding after_dispatch
  after_dispatch_last (ok x) w l = elim (Bool-cases h.ack_works) [
    | inl t ↦ simp t
    | inr f ↦ simp (f, after_failure_last (acked false ∷ []) w l refl)
  ]
  after_dispatch_last (err e) w l = elim (Bool-cases (is_cancellation e)) [
    | inl t ↦ rw t refl
    | inr f ↦ rw f (after_failure_last [] w l refl)
  ]

  handle_op_inner_last :
      (dispatch : RunTask → Act (Unit {0})) (w : World)
      → ltb h.attempt max_retries ≡ false
      → any is_requeue (handle_op_inner dispatch max_retries h w).0 ≡ false
  unfolding handle_op_inner
  handle_op_inner_last dispatch w l = elim (Bool-cases (ltb max_retries h.attempt)) [
    | inl t ↦ rw t (give_up_last _ [] w refl)
    | inr f ↦ rw f (after_dispatch_last _ _ l)
  ]

module _ (dispatch : RunTask → Act (Unit {0})) (max_retries : ℕ) where
  -- With acknowledgements that work, an operation whose dispatch is not cancelled is answered once:
  -- it is acknowledged, or put back with a delay while attempts are left.
  pub handle_op_inner-Settles :
      (h : Handle) (w : World)
      → h.ack_works ≡ true
      → h.nack_works ≡ true
      → Ran (dispatch h.operation w).0
      → Settles max_retries h (handle_op_inner dispatch max_retries h w).0
  unfolding handle_op_inner give_up
  handle_op_inner-Settles h w a n r = elim (Bool-cases (ltb max_retries h.attempt)) [
    | inl t ↦ rw (t, a) (inl refl)
    | inr f ↦ rw f (after_dispatch-Settles max_retries h _ _ a n r)
  ]

  -- An operation that keeps failing leaves the queue of the in-memory broker, whose handle counts
  -- the attempts: from any attempt, as many deliveries as attempts are left, and one more, come to
  -- an end, whatever the dispatch does and whichever calls of `ack` and `nack` fail on each of them.
  pub deliveries_end :
      (works : ℕ → Bool × Bool) (n : ℕ) (h : Handle) (w : World)
      → max_retries ≤ h.attempt + n
      → (r : List Reply × World) × (deliveries (suc n) dispatch max_retries works h w ≡ some r)
        × (any is_requeue r.0 ≡ false)
  unfolding deliveries
  deliveries_end works zero h w l =
      let f = handle_op_inner_last max_retries h dispatch w (ground arith) in rw f (_, refl, f)
  deliveries_end works (suc n) h w l =
      elim (Bool-cases (any is_requeue (handle_op_inner dispatch max_retries h w).0)) [
        | inl t ↦ rw t (deliveries_end works n (requeued works h) _ (omega arith))
        | inr f ↦ rw f (_, refl, f)
      ]
