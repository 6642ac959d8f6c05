-- ===== src/Storage/Update/Accept.antt =====
-- Exactly when `update_task` accepts a write.
use a2akit.Prelude.{ℕ, String, ◌≡◌, ◌⊎◌, ◌↔◌, inl, inr, refl, false, none, some, Option, arith}
use a2akit.Dict
use a2akit.Wire.{Task, TaskState, is_terminal, state_transitions_key}
use a2akit.Errors.{ok}
use a2akit.Storage.{Storage}
use a2akit.Storage.Update.{
  Update, update_task, version_of, check_version, check_terminal, get_task_or_raise,
}
use a2akit.Storage.Update.Content.{base, IsLog, apply_update-IsLog, apply_update-total}
use a2akit.Storage.Update.Guards.{update_task-cases}

-- The task is there, the expected version is the current one, a state is set only on a task that is
-- not terminal, and then the log slot holds a log.
abbrev pub Admissible : Storage → String → Update → Type 0
Admissible st k u =
    (t : Task) × (Dict.get st.tasks k ≡ some t)
    × ((u.expected_version ≡ none) ⊎ (u.expected_version ≡ some (version_of st k)))
    × ((u.state ≡ none) ⊎ (is_terminal t.status.state ≡ false))
    × ((u.state ≡ none) ⊎ IsLog (Dict.get (base t u) state_transitions_key))

check_version_current :
    (v : Option ℕ) (c : ℕ) → (v ≡ none) ⊎ (v ≡ some c) → check_version v c ≡ ok tt
unfolding check_version
check_version_current none c h = refl
check_version_current (some v) c h = ground arith

check_terminal_open :
    (s : Option TaskState) (c : TaskState)
    → (s ≡ none) ⊎ (is_terminal c ≡ false)
    → check_terminal s c ≡ ok tt
unfolding check_terminal
check_terminal_open none c h = refl
check_terminal_open (some s) c h = ground arith

module _ (st : Storage) (k : String) (u : Update) (now : String) where
  Admissible-accepted : Admissible st k u → (v : ℕ) × ((update_task st k u now).0 ≡ ok v)
  unfolding update_task
  Admissible-accepted (t, found, current, free, log) =
      let (work, done) = apply_update-total t u now log in
      rw (found, get_task_or_raise)
        (rw (check_version_current _ _ current, check_terminal_open _ _ free, done) (_, refl))

  accepted-Admissible : (v : ℕ) → (update_task st k u now).0 ≡ ok v → Admissible st k u
  accepted-Admissible v h = elim (update_task-cases st k u now) [
    | inl (e, p) ↦ cc (rw p at h)
    | inr (t, work, a) ↦
        (t, a.found, a.current, a.open_state, apply_update-IsLog t u now work a.applied)
  ]

  -- A write is accepted exactly when it is admissible.
  pub update_task_accepts : ((v : ℕ) × ((update_task st k u now).0 ≡ ok v)) ↔ Admissible st k u
  update_task_accepts = (λ (v, h). accepted-Admissible v h, Admissible-accepted)
