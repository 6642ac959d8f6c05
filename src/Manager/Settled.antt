-- ===== src/Manager/Settled.antt =====
-- No operation of the manager takes a task out of a terminal state.
use a2akit.Prelude.{ℕ, String, ◌≡◌, true, Option, none, some, List, [], ◌∷◌}
use a2akit.Wire.{Task, TaskState, Message, Part, is_terminal}
use a2akit.Errors.{Error}
use a2akit.Emitter.Settled.{update_task-IsSettled, send_event-IsSettled}
use a2akit.Manager.{
  validate_input_modes, refuse, validated, load_and_validate, submit_new, resolve_conflict,
  write_follow_up, announce, or_vanished, finish_follow_up, submit_follow_up, submit_task,
  unsupported_part,
}
use a2akit.Runtime.Steady.{Steady, steady_rules}
use a2akit.Runtime.Settled.{IsSettled, load-IsSettled, get_version-IsSettled, create-IsSettled}

module _ (k : String) (s : TaskState) (ended : is_terminal s ≡ true) where
  resolve_conflict-IsSettled :
      (m : Message) (e : Error) (t : Option Task) → Steady (IsSettled k s) (resolve_conflict m e t)
  unfolding resolve_conflict
  resolve_conflict-IsSettled m e none = search steady_rules
  resolve_conflict-IsSettled m e (some t) = search steady_rules

  write_follow_up-IsSettled :
      (m : Message) (t : Task) (v : Option ℕ) → Steady (IsSettled k s) (write_follow_up m t v)
  unfolding write_follow_up
  write_follow_up-IsSettled m t v =
      search
        (
          steady_rules,
          update_task-IsSettled k s ended,
          load-IsSettled k s ended,
          resolve_conflict-IsSettled,
        )
        depth 9

  validated-IsSettled : (m : Message) (t : Option Task) → Steady (IsSettled k s) (validated m t)
  unfolding validated
  validated-IsSettled m none = search steady_rules
  validated-IsSettled m (some t) = search steady_rules

  load_and_validate-IsSettled :
      (j : String) (m : Message) → Steady (IsSettled k s) (load_and_validate j m)
  unfolding load_and_validate
  load_and_validate-IsSettled j m =
      search (steady_rules, load-IsSettled k s ended, validated-IsSettled)

  announce-IsSettled : (t : Task) (r : Option TaskState) → Steady (IsSettled k s) (announce t r)
  unfolding announce
  announce-IsSettled t none = record { holds = λ w p. p }
  announce-IsSettled t (some r) = record {
    holds = λ w p. (send_event-IsSettled k s ended t.id _).holds w p;
  }

  or_vanished-IsSettled : (t : Option Task) → Steady (IsSettled k s) (or_vanished t)
  or_vanished-IsSettled none = search steady_rules
  or_vanished-IsSettled (some t) = search steady_rules

  finish_follow_up-IsSettled :
      (t : Task) (o : Option Task) → Steady (IsSettled k s) (finish_follow_up t o)
  finish_follow_up-IsSettled t none =
      search (steady_rules, announce-IsSettled, load-IsSettled k s ended, or_vanished-IsSettled)
        depth 7
  finish_follow_up-IsSettled t (some twin) = search steady_rules

  submit_follow_up-IsSettled :
      (j : String) (m : Message) → Steady (IsSettled k s) (submit_follow_up j m)
  unfolding submit_follow_up
  submit_follow_up-IsSettled j m =
      search
        (
          steady_rules,
          get_version-IsSettled k s ended,
          load_and_validate-IsSettled,
          write_follow_up-IsSettled,
          finish_follow_up-IsSettled,
        )
        depth 9

  submit_new-IsSettled : (c : String) (m : Message) → Steady (IsSettled k s) (submit_new c m)
  unfolding submit_new
  submit_new-IsSettled c m = search (steady_rules, create-IsSettled k s ended)

  refuse-IsSettled : (t : Option String) → Steady (IsSettled k s) (refuse t)
  refuse-IsSettled none = search steady_rules
  refuse-IsSettled (some t) = search steady_rules

  validate_input_modes-IsSettled :
      (modes : List String) (ps : List Part)
      → Steady (IsSettled k s) (validate_input_modes modes ps)
  unfolding validate_input_modes
  validate_input_modes-IsSettled [] ps = search steady_rules
  validate_input_modes-IsSettled (m ∷ modes) ps = refuse-IsSettled (unsupported_part (m ∷ modes) ps)

  -- Submitting a message to any task, new or not, with other writers acting before each storage
  -- call, leaves a task that has ended in its state, as long as no one deletes it or creates a task
  -- under its identifier.
  pub submit_task-IsSettled :
      (modes : List String) (c : String) (m : Message)
      → Steady (IsSettled k s) (submit_task modes c m)
  unfolding submit_task
  submit_task-IsSettled modes c m =
      search
        (
          steady_rules, validate_input_modes-IsSettled, submit_follow_up-IsSettled,
          submit_new-IsSettled,
        )
        depth 7
