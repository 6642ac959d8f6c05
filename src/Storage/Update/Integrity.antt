-- ===== src/Storage/Update/Integrity.antt =====
-- Data integrity of `update_task`: atomicity, optimistic concurrency, terminal states.
use a2akit.Prelude.{
  ℕ, ◌+◌, String, ◌≡◌, ◌≢◌, ◌⊎◌, inl, inr, refl, sym, true, false, none, some, arith, eq_iff,
  eq_refl, ◌==◌, Bool-cases,
}
use a2akit.Dict
use a2akit.Dict.{dict_laws}
use a2akit.Wire.{Task, is_terminal}
use a2akit.Errors.{Error, ok, ok-injective, err, concurrency}
use a2akit.Storage.{Storage}
use a2akit.Storage.Update.{Update, update_task, get_version, version_of}
use a2akit.Storage.Update.Content.{Written, apply_update-Written}
use a2akit.Storage.Update.Guards.{update_task-cases, update_task_stale}

pub version_of-get_version :
    (st : Storage) (k : String) {v : ℕ} → get_version st k ≡ some v → version_of st k ≡ v
unfolding get_version
version_of-get_version st k h = ground arith

module _ (st : Storage) (k : String) (u : Update) (now : String) where
  -- A write that raises leaves the storage as it was.
  pub update_task_error_keeps :
      {e : Error} → (update_task st k u now).0 ≡ err e → (update_task st k u now).1 ≡ st
  update_task_error_keeps h = elim (update_task-cases st k u now) [
    | inl (e, p) ↦ rw p refl
    | inr (t, work, a) ↦ cc (a.result)
  ]

  -- A write changes no other task, and no other task's version.
  pub update_task_frame :
      {j : String}
      → k ≢ j
      → (Dict.get (update_task st k u now).1.tasks j ≡ Dict.get st.tasks j)
        × (get_version (update_task st k u now).1 j ≡ get_version st j)
  unfolding get_version
  update_task_frame {j} h = elim (update_task-cases st k u now) [
    | inl (e, p) ↦ rw p (refl, refl)
    | inr (t, work, a) ↦ rw a.result (simp dict_laws (ground (arith, eq_iff k j)))
  ]

  -- An accepted write passed the version check, and moves the version on by one.
  pub update_task-version :
      {v : ℕ}
      → (update_task st k u now).0 ≡ ok v
      → (v ≡ version_of st k + 1)
        × (get_version (update_task st k u now).1 k ≡ some v)
        × ((u.expected_version ≡ none) ⊎ (u.expected_version ≡ some (version_of st k)))
  unfolding get_version
  update_task-version {v} h = elim (update_task-cases st k u now) [
    | inl (e, p) ↦ cc (rw p at h)
    | inr (t, work, a) ↦
        let e : v ≡ version_of st k + 1 = sym (ok-injective (rw a.result at h)) in
        (e, rw a.result (simp dict_laws (ground (arith, eq_refl k))), a.current)
  ]

  -- What an accepted write stores, and the conditions under which it was accepted.
  pub update_task-stores :
      {v : ℕ}
      → (update_task st k u now).0 ≡ ok v
      → (t work : Task) × (Dict.get st.tasks k ≡ some t)
        × ((u.state ≡ none) ⊎ (is_terminal t.status.state ≡ false))
        × (Dict.get (update_task st k u now).1.tasks k ≡ some work)
        × Written t u now work
  update_task-stores h = elim (update_task-cases st k u now) [
    | inl (e, p) ↦ cc (rw p at h)
    | inr (t, work, a) ↦ (
      t,
      work,
      a.found,
      a.open_state,
      rw a.result (simp dict_laws (ground (arith, eq_refl k))),
      apply_update-Written t u now work a.applied,
    )
  ]

  -- No write to any task, with any arguments, takes a task out of a terminal state.
  pub update_task-terminal :
      (j : String) {t : Task}
      → Dict.get st.tasks j ≡ some t
      → is_terminal t.status.state ≡ true
      → (t' : Task) × (Dict.get (update_task st k u now).1.tasks j ≡ some t')
        × (t'.status.state ≡ t.status.state)
  update_task-terminal j {t} h f = elim (update_task-cases st k u now) [
    | inl (e, p) ↦ (t, rw p h, refl)
    | inr (t', work, a) ↦ elim (Bool-cases (k == j)) [
      | inl same ↦ (
        work,
        rw a.result (simp dict_laws (rw same refl)),
        ground (arith, eq_iff k j, (apply_update-Written t' u now work a.applied).state),
      )
      | inr other ↦ (t, rw a.result (simp dict_laws (rw other h)), refl)
    ]
  ]

  -- Two writers that read the same version: when the first write is accepted, the second is
  -- refused with the new version, and the storage stays as the first left it.
  pub update_task_lost :
      (u' : Update) (later : String) {v : ℕ}
      → (update_task st k u now).0 ≡ ok v
      → u'.expected_version ≡ some (version_of st k)
      → update_task (update_task st k u now).1 k u' later
        ≡ (err (concurrency (some v)), (update_task st k u now).1)
  update_task_lost u' later {v} h e =
      let (t, work, found, free, kept, written) = update_task-stores h in
      let (next, stored, checked) = update_task-version h in
      let now_at : version_of (update_task st k u now).1 k ≡ v =
        version_of-get_version _ k stored in
      rw (← now_at) (
        update_task_stale (update_task st k u now).1 k u' later (version_of st k) kept e
          (λ same. absurd (omega (arith, same, now_at, next))))
