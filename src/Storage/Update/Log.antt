-- ===== src/Storage/Update/Log.antt =====
-- The transition log: its last entry is the task's state.
use a2akit.Prelude.{String, ◌≡◌, refl, sym, ◌∙◌, none, some, Option, List, [], ◌∷◌, ◌++◌}
use a2akit.Dict
use a2akit.Dict.{Dict, get-update_other}
use a2akit.Wire.{
  Task, TaskState, Message, MetaValue, transitions, TransitionRecord, state_transitions_key,
}
use a2akit.Errors.{ok}
use a2akit.Storage.{build_transition_record}
use a2akit.Storage.Update.{Update, apply_update}
use a2akit.Storage.Update.Content.{apply_update-Written, base, next_state, Logged}

-- The task's transition log is a log, and its last entry is the task's state.
abbrev pub IsLogged : Task → Type 0
IsLogged t =
    (rs : List TransitionRecord) × (r : TransitionRecord) × (Dict.get t.metadata
        state_transitions_key
      ≡ some (transitions (rs ++ r ∷ [])))
    × (r.state ≡ t.status.state)

state-build_transition_record :
    (s : TaskState) (now : String) (m : Option Message)
    → (build_transition_record s now m).state ≡ s
unfolding build_transition_record
state-build_transition_record s now none = refl
state-build_transition_record s now (some m) = refl

Logged-next :
    (md md' : Dict MetaValue) (s : Option TaskState) (m : Option Message) (now : String)
    (rs : List TransitionRecord) (r : TransitionRecord) {old new : TaskState}
    → Dict.get md state_transitions_key ≡ some (transitions (rs ++ r ∷ []))
    → r.state ≡ old
    → new ≡ next_state s old
    → Logged md s m now md'
    → (rs' : List TransitionRecord) × (r' : TransitionRecord) × (Dict.get md' state_transitions_key
        ≡ some (transitions (rs' ++ r' ∷ [])))
      × (r'.state ≡ new)
Logged-next md md' none m now rs r e q n l = (rs, r, l ∙ e, q ∙ sym n)
Logged-next md md' (some s) m now rs r e q n l = (
  rs ++ r ∷ [],
  build_transition_record s now m,
  rw e at l.1,
  state-build_transition_record s now m ∙ sym n,
)

module _ (t : Task) (u : Update) (now : String) where
  -- A write that leaves the log's key alone keeps the log, with its last entry the new state.
  pub apply_update-IsLogged :
      (work : Task)
      → Dict.get u.task_metadata state_transitions_key ≡ none
      → apply_update t u now ≡ ok work
      → IsLogged t
      → IsLogged work
  apply_update-IsLogged work other h (rs, r, e, q) =
      let w = apply_update-Written t u now work h in
      Logged-next (base t u) work.metadata u.state u.status_message now rs r
        (get-update_other t.metadata u.task_metadata state_transitions_key other ∙ e) q w.state
        w.logged
