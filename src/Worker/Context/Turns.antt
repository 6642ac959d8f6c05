-- ===== src/Worker/Context/Turns.antt =====
-- A turn ends once, and what ended it is in the storage.
use a2akit.Prelude.{
  ℕ, suc, String, ◌≡◌, ◌∙◌, ap, inl, inr, refl, if◌then◌else◌, sym, subst, Bool, true, false, some,
  Option, List, [], ◌∷◌, ◌++◌, arith,
}
use a2akit.Dict
use a2akit.Dict.{Dict}
use a2akit.Wire.{TaskState, Task, Message, ArtifactWrite, MetaValue, StreamEvent, is_terminal}
use a2akit.Errors.{Error, Result, ok, err, runtime_error}
use a2akit.Emitter.{send_event}
use a2akit.Emitter.Accepted.{Landed}
use a2akit.Storage.Artifacts.{apply_artifacts}
use a2akit.Storage.Update.{Update}
use a2akit.Runtime.{World}
use a2akit.Worker.Context.{
  TaskContext, versioned_update, lifecycle_update, terminal_transition, emit_status, send_events,
  transitioned,
}
use a2akit.Worker.Context.Landing.{turns, versioned_update-Lands}

send_events_kept :
    (k : String) (es : List StreamEvent) (w : World)
    → ((send_events k es w).storage ≡ w.storage) × ((send_events k es w).schedule ≡ w.schedule)
unfolding send_events send_event
send_events_kept k [] w = (refl, refl)
send_events_kept k (e ∷ es) w = send_events_kept k es _

module _ (s : TaskState) (m : Option Message) (artifacts : List ArtifactWrite)
    (metadata : Dict MetaValue) (events : List StreamEvent) (ctx : TaskContext) (w : World) where
  -- A lifecycle method that returns has ended the turn and emptied the buffer; one that raises
  -- leaves the context, its buffer included, as it was.
  pub terminal_transition_turn :
      let (r, ctx', w') = terminal_transition s m artifacts metadata events ctx w in
      (r ≡ ok tt → (ctx'.turn_ended ≡ true) × (ctx'.pending ≡ []))
      × ((e : Error) → r ≡ err e → ctx' ≡ ctx)
  unfolding terminal_transition
  terminal_transition_turn = (λ h. ground arith, λ e h. ground arith)

  abbrev update : Update
  update = lifecycle_update ctx s m artifacts metadata

  -- What a lifecycle method has stored when it returns: `before` is the task as it was after the
  -- others had run some number of times, when the write came; they have not run since.
  pub Concluded : World → Type 0
  Concluded w' =
      (n : ℕ) × (before : Task) × (work : Task) × (Dict.get (turns (suc n) w).storage.tasks
          ctx.task_id
        ≡ some before)
      × (w'.schedule ≡ (turns (suc n) w).schedule)
      × (is_terminal before.status.state ≡ false)
      × (Dict.get w'.storage.tasks ctx.task_id ≡ some work)
      × (work.status.state ≡ s)
      × (work.artifacts ≡ apply_artifacts before.artifacts (ctx.pending ++ artifacts))

  Landed-Concluded :
      (w' : World)
      → (n : ℕ) × (l : Landed ctx.task_id update w') × (l.at ≡ turns (suc n) w)
      → Concluded w'
  unfolding Concluded
  Landed-Concluded w' (n, l, e) = (
    n,
    l.before,
    l.work,
    subst (λ v. Dict.get v.storage.tasks ctx.task_id ≡ some l.before) e l.found,
    l.last ∙ ap (λ v. v.schedule) e,
    elim l.was_open [ inl e ↦ cc | inr o ↦ o ],
    l.stored,
    l.written.state,
    l.written.artifacts,
  )

  sent_Concluded :
      (es : List StreamEvent) (w' : World)
      → Concluded w'
      → Concluded (send_events ctx.task_id es w')
  unfolding Concluded
  sent_Concluded es w' (n, before, work, found, last, free, stored, state, artifacts) =
      let (same, others) = send_events_kept ctx.task_id es w' in
      (
        n,
        before,
        work,
        found,
        others ∙ last,
        free,
        subst (λ st. Dict.get st.tasks ctx.task_id ≡ some work) (sym same) stored,
        state,
        artifacts,
      )

  Result-Concluded :
      (r : Result ℕ) (w' : World)
      → ctx.turn_ended ≡ false
      → ((v : ℕ) → r ≡ ok v → Concluded w')
      → (transitioned ctx s m events (r, w')).0 ≡ ok tt
      → Concluded (transitioned ctx s m events (r, w')).2
  unfolding transitioned emit_status send_event send_events Concluded
  Result-Concluded (ok v) w' o g h = sent_Concluded events w' (g v refl)
  Result-Concluded (err e) w' o g h = cc

  open-Concluded :
      (b : Bool) (r : Result (Unit {0}) × TaskContext × World)
      → (b ≡ false → r.0 ≡ ok tt → Concluded r.2)
      → (if b then (err runtime_error, ctx, w) else r).0 ≡ ok tt
      → Concluded (if b then (err runtime_error, ctx, w) else r).2
  open-Concluded true r g h = cc
  open-Concluded false r g h = g refl h

  -- When a lifecycle method returns, whatever other writers did before each of its storage calls,
  -- they had left the task open before the last of these calls, and the write found it so: the task
  -- is now in the method's state, and its artifacts are those that it had there with the buffered
  -- writes applied in their order and then the method's own.
  pub terminal_transition_stores :
      (terminal_transition s m artifacts metadata events ctx w).0 ≡ ok tt
      → Concluded (terminal_transition s m artifacts metadata events ctx w).2
  unfolding terminal_transition
  terminal_transition_stores =
      let (r, w') = versioned_update ctx.task_id ctx.version update w in
      let landed = (versioned_update-Lands ctx.task_id update ctx.version).lands w in
      open-Concluded ctx.turn_ended _
        (λ f. Result-Concluded r w' f (λ v p. Landed-Concluded w' (landed v p)))
