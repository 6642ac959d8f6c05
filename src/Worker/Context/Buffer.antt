-- ===== src/Worker/Context/Buffer.antt =====
-- The artifact buffer: a flush never loses a write.
use a2akit.Prelude.{
  ℕ, String, ◌≡◌, ◌≢◌, ◌++◌, ◌&&◌, ◌⊎◌, inl, inr, refl, sym, subst, if◌then◌else◌, List, [], ◌∷◌,
  Bool, true, false,
}
use a2akit.Wire.{ArtifactWrite, Part}
use a2akit.Errors.{Result, ok, err, Error, is_concurrency}
use a2akit.Storage.Update.{Update, no_update}
use a2akit.Emitter.Accepted.{Landed}
use a2akit.Runtime.{World}
use a2akit.Worker.Context.{
  TaskContext, flush_artifacts, flush_batch, flushed, skip_write, versioned_update, maybe_flush,
  is_filled, is_due,
}
use a2akit.Worker.Context.Lifecycle.{Content, build_parts, emit_parts, emit_artifact}
use a2akit.Worker.Context.Landing.{versioned_update-Landed}

-- The buffer is as it was, or it is empty and its writes are in the storage.
abbrev pub Kept : TaskContext → TaskContext → World → Type 0
Kept ctx ctx' w' =
    (ctx'.pending ≡ ctx.pending)
    ⊎ ((ctx'.pending ≡ []) × Landed ctx.task_id (record no_update { artifacts = ctx.pending }) w')

skip-Kept :
    (ctx : TaskContext) (e : Error) (b : Bool) (w : World)
    → let after = if b then skip_write ctx e w else (err e, ctx, w) in after.1.pending ≡ ctx.pending
unfolding skip_write
skip-Kept ctx e true w = refl
skip-Kept ctx e false w = refl

flushed-Kept :
    (ctx : TaskContext) (r : Result ℕ) (w : World)
    → ((v : ℕ) → r ≡ ok v → Landed ctx.task_id (record no_update { artifacts = ctx.pending }) w)
    → Kept ctx (flushed ctx (r, w)).1 (flushed ctx (r, w)).2
unfolding flushed
flushed-Kept ctx (ok v) w l = inr (refl, l v refl)
flushed-Kept ctx (err e) w l = inl (skip-Kept ctx e (is_concurrency e) w)

flush_batch-Kept :
    (ps : List ArtifactWrite) (ctx : TaskContext) (w : World)
    → ctx.pending ≡ ps
    → Kept ctx (flush_batch ps ctx w).1 (flush_batch ps ctx w).2
unfolding flush_batch
flush_batch-Kept [] ctx w e = inl refl
flush_batch-Kept (a ∷ rest) ctx w e =
    let u : Update = record no_update { artifacts = a ∷ rest } in
    let (r, w') = versioned_update ctx.task_id ctx.version u w in
    let landed = (versioned_update-Landed ctx.task_id u ctx.version).gives w in
    flushed-Kept ctx r w' (λ v p.
      subst (λ qs. Landed ctx.task_id (record no_update { artifacts = qs }) w') (sym e)
        (landed v p))

-- Whatever other writers do before each of its calls, and also when it raises, a flush keeps the
-- buffer as it was, or empties it once all of it is in the storage.
pub flush_artifacts-Kept :
    (ctx : TaskContext) (w : World) → Kept ctx (flush_artifacts ctx w).1 (flush_artifacts ctx w).2
unfolding flush_artifacts
flush_artifacts-Kept ctx w = flush_batch-Kept ctx.pending ctx w refl

maybe_flush-Kept :
    (ctx : TaskContext) (w : World) → Kept ctx (maybe_flush ctx w).1 (maybe_flush ctx w).2
unfolding maybe_flush
maybe_flush-Kept ctx w = due (is_filled ctx.pending && is_due ctx w.clock)
  where
    due :
        (b : Bool)
        → let after = if b then flush_artifacts ctx w else (ok tt, ctx, w) in
          Kept ctx after.1 after.2
    due true = flush_artifacts-Kept ctx w
    due false = inl refl

-- The context with one write more in its buffer.
abbrev pub with_write : TaskContext → String → String → List Part → Bool → TaskContext
with_write ctx artifact_id name parts append = record ctx {
  pending =
      ctx.pending
      ++ record {
        artifact = record { artifact_id = artifact_id; name = name; parts = parts };
        append = append;
      }
        ∷ [];
}

emit_parts-Kept :
    (parts : List Part) (artifact_id name : String) (append last_chunk : Bool) (ctx : TaskContext)
    (w : World)
    → parts ≢ []
    → let (r, ctx', w') = emit_parts parts artifact_id name append last_chunk ctx w in
      Kept (with_write ctx artifact_id name parts append) ctx' w'
unfolding emit_parts
emit_parts-Kept [] artifact_id name append last_chunk ctx w filled = absurd (filled refl)
emit_parts-Kept (p ∷ ps) artifact_id name append last_chunk ctx w filled = maybe_flush-Kept _ _

-- An artifact that is emitted in an open turn, with some content, is not lost, whatever other
-- writers do and also when the flush raises: it is at the end of the buffer, or the buffer is empty
-- and all of it, the new write last, is in the storage.
pub emit_artifact-Kept :
    (artifact_id name : String) (c : Content) (append last_chunk : Bool) (ctx : TaskContext)
    (w : World)
    → ctx.turn_ended ≡ false
    → build_parts c ≢ []
    → let (r, ctx', w') = emit_artifact artifact_id name c append last_chunk ctx w in
      Kept (with_write ctx artifact_id name (build_parts c) append) ctx' w'
unfolding emit_artifact
emit_artifact-Kept artifact_id name c append last_chunk ctx w running filled =
    simp running (emit_parts-Kept (build_parts c) artifact_id name append last_chunk ctx w filled)
