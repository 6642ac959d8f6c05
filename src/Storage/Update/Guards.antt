-- ===== src/Storage/Update/Guards.antt =====
-- The data-integrity guards of `update_task`: the version check and the terminal-state guard.
use a2akit.Prelude.{
  ℕ, ◌+◌, String, ◌≡◌, ◌≢◌, ◌⊎◌, inl, inr, refl, false, eqb, none, some, arith, Option,
  Option-cases,
}
use a2akit.Dict
use a2akit.Wire.{Task, TaskState, is_terminal}
use a2akit.Errors.{Error, Result-cases, ok, err, task_not_found, task_terminal_state, concurrency}
use a2akit.Storage.{Storage}
use a2akit.Storage.Update.{
  Update, update_task, apply_update, version_of, check_version, check_terminal, get_task_or_raise,
}

-- What holds when a write of `u` to task `t` has been accepted, and `work` is what it stores.
pub record Accepted (st : Storage) (k : String) (u : Update) (now : String) (t work : Task)
    : Type 0 where
  pub found : Dict.get st.tasks k ≡ some t
  pub current : (u.expected_version ≡ none) ⊎ (u.expected_version ≡ some (version_of st k))
  pub open_state : (u.state ≡ none) ⊎ (is_terminal t.status.state ≡ false)
  pub applied : apply_update t u now ≡ ok work
  pub result : update_task st k u now ≡ (
    ok (version_of st k + 1),
    record st {
      tasks = Dict.set st.tasks k work;
      versions = Dict.set st.versions k (version_of st k + 1);
    },
  )

-- The two checks, as facts about their arguments.
check_version-cases :
    (v : Option ℕ) (c : ℕ)
    → (check_version v c ≡ err (concurrency (some c)))
      ⊎ ((check_version v c ≡ ok tt) × ((v ≡ none) ⊎ (v ≡ some c)))
unfolding check_version
check_version-cases none c = inr (refl, inl refl)
check_version-cases (some v) c = ground arith

check_terminal-cases :
    (s : Option TaskState) (c : TaskState)
    → (check_terminal s c ≡ err task_terminal_state)
      ⊎ ((check_terminal s c ≡ ok tt) × ((s ≡ none) ⊎ (is_terminal c ≡ false)))
unfolding check_terminal
check_terminal-cases none c = inr (refl, inl refl)
check_terminal-cases (some s) c = ground arith

stale : (w c : ℕ) → w ≢ c → eqb w c ≡ false
stale w c ne = ground arith

module _ (st : Storage) (k : String) (u : Update) (now : String) where
  abbrev Outcome : Type 0
  Outcome =
      ((e : Error) × (update_task st k u now ≡ (err e, st)))
      ⊎ ((t work : Task) × Accepted st k u now t work)

  missing : Dict.get st.tasks k ≡ none → Outcome
  unfolding update_task
  missing h = inl (task_not_found, ground arith)

  found : (t : Task) → Dict.get st.tasks k ≡ some t → Outcome
  unfolding update_task
  found t h = elim (check_version-cases u.expected_version (version_of st k)) [
    | inl c ↦ inl (concurrency (some (version_of st k)), rw (h, get_task_or_raise) (rw c refl))
    | inr c ↦ elim (check_terminal-cases u.state t.status.state) [
      | inl o ↦ inl (task_terminal_state, rw (h, get_task_or_raise) (rw (c.0, o)))
      | inr o ↦ elim (Result-cases (apply_update t u now)) [
        | inl (e, a) ↦ inl (e, rw (h, get_task_or_raise) (rw (c.0, o.0, a)))
        | inr (work, a) ↦ inr (
          t,
          work,
          record {
            found = h;
            current = c.1;
            open_state = o.1;
            applied = a;
            result = rw (h, get_task_or_raise) (rw (c.0, o.0, a));
          },
        )
      ]
    ]
  ]

  -- A write is refused and changes nothing, or it is accepted.
  pub update_task-cases : Outcome
  update_task-cases = elim (Option-cases (Dict.get st.tasks k)) [
    | inl e ↦ missing e
    | inr (t, e) ↦ found t e
  ]

  -- A version that is not the current one is refused, whatever the write.
  pub update_task_stale :
      {t : Task} (w : ℕ)
      → Dict.get st.tasks k ≡ some t
      → u.expected_version ≡ some w
      → w ≢ version_of st k
      → update_task st k u now ≡ (err (concurrency (some (version_of st k))), st)
  unfolding update_task check_version
  update_task_stale {t} w h e ne =
      rw (h, get_task_or_raise) (rw e (rw (stale w (version_of st k) ne) refl))
