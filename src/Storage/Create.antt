-- ===== src/Storage/Create.antt =====
-- `create_task`: what a new task is, and idempotency by key and context.
use a2akit.Prelude.{
  String, ◌≡◌, refl, Bool, true, false, none, some, arith, [], ◌∷◌, first, ◌==◌, eq_refl,
  Option-cases, inl, inr,
}
use a2akit.Dict
use a2akit.Dict.{Dict, dict_laws}
use a2akit.Wire.{Task, Message, submitted, just_created_key}
use a2akit.Storage.{
  Storage, create_task, find_idempotent, new_task, has_key, mark_created, insert_task,
}

pub first-values-set :
    {V : Type 0} (p : V → Bool) (d : Dict V) (k : String) (v : V)
    → first p (Dict.values d) ≡ none
    → p v ≡ true
    → first p (Dict.values (Dict.set d k v)) ≡ some v
unfolding Dict.set
first-values-set p [] k v h e = rw e refl
first-values-set p ((j, w) ∷ d) k v h e = ground (arith, first-values-set p d k v)

module _ (context_id key : String) (m : Message) (now fresh : String)
    (named : (key == "") ≡ false) where
  new_task-has_key : has_key context_id key (new_task fresh context_id m (some key) now) ≡ true
  unfolding has_key new_task
  new_task-has_key = rw (named, eq_refl context_id) (simp (dict_laws, eq_refl))

  create_task-hit :
      (st : Storage) {t : Task}
      → find_idempotent st.tasks context_id (some key) ≡ some t
      → create_task st context_id m (some key) now fresh ≡ (t, st)
  unfolding create_task
  create_task-hit st h = ground arith

  create_task-miss :
      (st : Storage)
      → find_idempotent st.tasks context_id (some key) ≡ none
      → create_task st context_id m (some key) now fresh ≡ (
        mark_created (new_task fresh context_id m (some key) now),
        insert_task st (new_task fresh context_id m (some key) now),
      )
  unfolding create_task
  create_task-miss st h = ground arith

  find_idempotent-insert :
      (tasks : Dict Task)
      → find_idempotent tasks context_id (some key) ≡ none
      → let t = new_task fresh context_id m (some key) now in
        find_idempotent (Dict.set tasks t.id t) context_id (some key) ≡ some t
  unfolding find_idempotent
  find_idempotent-insert tasks h =
      rw named
        (first-values-set (has_key context_id key) tasks _ _ (rw named at h) new_task-has_key)

module _ (context_id key : String) (m : Message) (now fresh : String)
    (named : (key == "") ≡ false) where
  -- After a creation under a key, the same key in the same context finds the task that the first
  -- call returned, and changes nothing: a retry makes no second task.
  pub create_task_retry :
      (st : Storage) (m' : Message) (now' fresh' : String)
      → let (returned, st') = create_task st context_id m (some key) now fresh in
        (stored : Task) × (create_task st' context_id m' (some key) now' fresh' ≡ (stored, st'))
        × (stored.id ≡ returned.id)
  create_task_retry st m' now' fresh' =
      elim (Option-cases (find_idempotent st.tasks context_id (some key))) [
        | inl e ↦ rw (create_task-miss context_id key m now fresh named st e) (
          _,
          create_task-hit context_id key m' now' fresh' named _
              (find_idempotent-insert context_id key m now fresh named st.tasks e),
          refl,
        )
        | inr (t, e) ↦
            rw (create_task-hit context_id key m now fresh named st e)
              (t, create_task-hit context_id key m' now' fresh' named st e, refl)
      ]

  -- A creation that finds no task under its key stores the new task, at version 1, and returns it
  -- with the transient marker, which the stored task does not have.
  pub create_task_new :
      (st : Storage)
      → find_idempotent st.tasks context_id (some key) ≡ none
      → let (returned, st') = create_task st context_id m (some key) now fresh in
        (stored : Task) × (returned ≡ mark_created stored)
        × (Dict.get st'.tasks fresh ≡ some stored)
        × (Dict.get st'.versions fresh ≡ some 1)
        × (Dict.get stored.metadata just_created_key ≡ none)
        × (stored.status.state ≡ submitted)
  unfolding new_task
  create_task_new st h = rw (create_task-miss context_id key m now fresh named st h) (
    new_task fresh context_id m (some key) now,
    refl,
    simp (dict_laws, eq_refl),
    simp (dict_laws, eq_refl),
    rw named (simp dict_laws),
    refl,
  )
