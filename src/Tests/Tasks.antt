-- ===== src/Tests/Tasks.antt =====
-- The storage's theorems on concrete data.
use a2akit.Prelude.{ℕ, ◌≡◌, ◌↔◌, refl, none, some, [], ◌∷◌}
use a2akit.Dict
use a2akit.Dict.{Dict}
use a2akit.Wire.{
  submitted, working, completed, Task, MetaValue, transitions, state_transitions_key,
  meta_last_modified_key,
}
use a2akit.Errors.{ok, err, concurrency}
use a2akit.Storage.{build_transition_record}
use a2akit.Storage.Artifacts.{apply_artifacts}
use a2akit.Storage.Update
use a2akit.Storage.Update.{Update, no_update, apply_update, version_of}
use a2akit.Storage.Update.Accept.{Admissible, update_task_accepts}
use a2akit.Storage.Update.Integrity.{update_task-terminal, update_task_lost}
use a2akit.Storage.Update.Log.{IsLogged, apply_update-IsLogged}
use a2akit.Tests.Data.{task_in, storage_in, to_working}

update_task-terminal_example :
    (t : Task) × (Dict.get
        (Update.update_task (storage_in completed) "t1" (to_working none) "09:01").1.tasks
        "t1"
      ≡ some t)
    × (t.status.state ≡ completed)
unfolding Dict.get
update_task-terminal_example =
    update_task-terminal (storage_in completed) "t1" (to_working none) "09:01" "t1" refl refl

update_task_accepts_example :
    ((v : ℕ) × ((Update.update_task (storage_in submitted) "t1" (to_working (some 3)) "09:01").0
        ≡ ok v))
    ↔ Admissible (storage_in submitted) "t1" (to_working (some 3))
update_task_accepts_example =
    update_task_accepts (storage_in submitted) "t1" (to_working (some 3)) "09:01"

update_task_lost_example :
    Update.update_task
      (Update.update_task (storage_in submitted) "t1" (to_working (some 3)) "09:01").1
      "t1"
      (to_working (some 3))
      "09:02"
    ≡ (
      err (concurrency (some 4)),
      (Update.update_task (storage_in submitted) "t1" (to_working (some 3)) "09:01").1,
    )
unfolding Update.update_task Dict.get Update.check_version Update.check_terminal apply_update
update_task_lost_example =
    update_task_lost (storage_in submitted) "t1" (to_working (some 3)) "09:01" (to_working (some 3))
      "09:02" refl refl

abbrev started_task : Task
started_task = record (task_in submitted) {
  status = record { state = working; timestamp = "09:01"; message = none };
  metadata =
      (
        state_transitions_key,
        transitions (
            record { state = submitted; timestamp = "09:00"; message_text = none }
            ∷ record { state = working; timestamp = "09:01"; message_text = none }
            ∷ []),
      )
      ∷ (meta_last_modified_key, MetaValue.text "09:01")
      ∷ [];
}

apply_update-IsLogged_example : IsLogged started_task
unfolding apply_update Dict.get Dict.set build_transition_record apply_artifacts
apply_update-IsLogged_example =
    apply_update-IsLogged (task_in submitted) (to_working none) "09:01" started_task refl refl
      ([], record { state = submitted; timestamp = "09:00"; message_text = none }, refl, refl)
