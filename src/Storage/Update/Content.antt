-- ===== src/Storage/Update/Content.antt =====
-- What an accepted `update_task` writes: status, history, transition log.
use a2akit.Prelude.{
  String, ◌≡◌, ◌⊎◌, inl, inr, refl, subst, none, some, Option, arith, List, [], ◌∷◌, ◌++◌, eq_iff,
}
use a2akit.Dict
use a2akit.Dict.{Dict, dict_laws}
use a2akit.Wire.{
  Task, TaskState, TaskStatus, Message, MetaValue, text, flag, transitions, TransitionRecord,
  state_transitions_key, meta_last_modified_key,
}
use a2akit.Errors.{Result-cases, ok, ok-injective}
use a2akit.Storage.{build_transition_record}
use a2akit.Storage.Artifacts.{apply_artifacts}
use a2akit.Storage.Update.{Update, apply_update, apply_status, append_transition}

-- The metadata that a write starts from.
abbrev pub base : Task → Update → Dict MetaValue
base t u = Dict.update t.metadata u.task_metadata

abbrev pub IsLog : Option MetaValue → Type 0
IsLog (some (text s)) = ⊥
IsLog (some (flag b)) = ⊥
IsLog _ = Unit

abbrev pub log_of : Option MetaValue → List TransitionRecord
log_of (some (transitions rs)) = rs
log_of _ = []

abbrev pub next_state : Option TaskState → TaskState → TaskState
next_state none s = s
next_state (some s') s = s'

abbrev slot : Dict MetaValue → Option MetaValue
slot md = Dict.get md state_transitions_key

-- The log slot after `append_transition`, and that it is filled unless another value is there.
append_transition-total :
    (md : Dict MetaValue) (r : TransitionRecord) (o : Option MetaValue)
    → slot md ≡ o
    → IsLog o
    → (md' : Dict MetaValue) × (append_transition md r ≡ ok md')
      × (slot md' ≡ some (transitions (log_of o ++ r ∷ [])))
unfolding append_transition
append_transition-total md r none e h = (
  Dict.set md state_transitions_key (transitions (r ∷ [])),
  rw (e, append_transition) refl,
  simp dict_laws,
)
append_transition-total md r (some (transitions rs)) e h = (
  Dict.set md state_transitions_key (transitions (rs ++ r ∷ [])),
  rw (e, append_transition) refl,
  simp dict_laws,
)
append_transition-total md r (some (text s)) e h = absurd h
append_transition-total md r (some (flag b)) e h = absurd h

append_transition-IsLog :
    (md md' : Dict MetaValue) (r : TransitionRecord) (o : Option MetaValue)
    → slot md ≡ o
    → append_transition md r ≡ ok md'
    → IsLog o
unfolding append_transition
append_transition-IsLog md md' r none e h = tt
append_transition-IsLog md md' r (some (transitions rs)) e h = tt
append_transition-IsLog md md' r (some (text s)) e h = ground arith
append_transition-IsLog md md' r (some (flag b)) e h = ground arith

slot-stamped :
    (md : Dict MetaValue) (now : String)
    → slot (Dict.set md meta_last_modified_key (text now)) ≡ slot md
slot-stamped md now =
    simp dict_laws (ground (arith, eq_iff meta_last_modified_key state_transitions_key))

-- The states, and the log, that `apply_status` leaves.
abbrev pub Logged :
    Dict MetaValue → Option TaskState → Option Message → String → Dict MetaValue → Type 0
Logged md none m now md' = slot md' ≡ slot md
Logged md (some s) m now md' =
    IsLog (slot md)
    × (slot md' ≡ some (transitions (log_of (slot md) ++ build_transition_record s now m ∷ [])))

apply_status_content :
    (old : TaskStatus) (md : Dict MetaValue) (s : Option TaskState) (m : Option Message)
    (now : String) (r : TaskStatus × Dict MetaValue)
    → apply_status old md s m now ≡ ok r
    → (r.0.state ≡ next_state s old.state) × Logged md s m now r.1
unfolding apply_status
apply_status_content old md (some s) m now r h =
    elim (Result-cases (append_transition md (build_transition_record s now m))) [
      | inl (e, p) ↦ ground arith
      | inr (md', p) ↦ ground (
        arith,
        append_transition-IsLog md md' (build_transition_record s now m) (slot md) refl p,
        append_transition-total md (build_transition_record s now m) (slot md) refl,
        slot-stamped md' now,
      )
    ]
apply_status_content old md none (some m) now r h = ground (arith, slot-stamped md now)
apply_status_content old md none none now r h = ground arith

apply_status-total :
    (old : TaskStatus) (md : Dict MetaValue) (s : Option TaskState) (m : Option Message)
    (now : String)
    → (s ≡ none) ⊎ IsLog (slot md)
    → (r : TaskStatus × Dict MetaValue) × (apply_status old md s m now ≡ ok r)
unfolding apply_status
apply_status-total old md (some s) m now (inl e) = cc
apply_status-total old md (some s) m now (inr l) =
    let (md', p, q) =
      append_transition-total md (build_transition_record s now m) (slot md) refl l in
    rw p (_, refl)
apply_status-total old md none (some m) now h = (_, refl)
apply_status-total old md none none now h = (_, refl)

-- What one accepted write stores.
pub record Written (t : Task) (u : Update) (now : String) (work : Task) : Type 0 where
  pub same_id : work.id ≡ t.id
  pub same_context : work.context_id ≡ t.context_id
  pub state : work.status.state ≡ next_state u.state t.status.state
  pub history : work.history ≡ t.history ++ u.messages
  pub artifacts : work.artifacts ≡ apply_artifacts t.artifacts u.artifacts
  pub logged : Logged (base t u) u.state u.status_message now work.metadata

module _ (t : Task) (u : Update) (now : String) where
  pub apply_update-Written : (work : Task) → apply_update t u now ≡ ok work → Written t u now work
  unfolding apply_update
  apply_update-Written work h =
      elim (Result-cases (apply_status t.status (base t u) u.state u.status_message now)) [
        | inl (e, p) ↦ cc (rw p at h)
        | inr (r, p) ↦ written r (apply_status_content _ _ _ _ _ r p) (rw p at h)
      ]
    where
      written :
          (r : TaskStatus × Dict MetaValue)
          → (r.0.state ≡ next_state u.state t.status.state)
            × Logged (base t u) u.state u.status_message now r.1
          → ok (record t {
            status = r.0;
            history = t.history ++ u.messages;
            artifacts = apply_artifacts t.artifacts u.artifacts;
            metadata = r.1;
          })
            ≡ ok work
          → Written t u now work
      written r (s, l) e = subst (Written t u now) (ok-injective e) (record {
        same_id = refl;
        same_context = refl;
        state = s;
        history = refl;
        artifacts = refl;
        logged = l;
      })

  -- The only failure of the working copy is a log slot that holds something else.
  pub apply_update-total :
      (u.state ≡ none) ⊎ IsLog (slot (base t u)) → (work : Task) × (apply_update t u now ≡ ok work)
  unfolding apply_update
  apply_update-total h =
      let (r, p) = apply_status-total t.status (base t u) u.state u.status_message now h in
      rw p (_, refl)

apply_status-IsLog :
    (old : TaskStatus) (md : Dict MetaValue) (s : Option TaskState) (m : Option Message)
    (now : String) (r : TaskStatus × Dict MetaValue)
    → apply_status old md s m now ≡ ok r
    → (s ≡ none) ⊎ IsLog (slot md)
apply_status-IsLog old md (some s) m now r h =
    inr (apply_status_content old md (some s) m now r h).1.0
apply_status-IsLog old md none m now r h = inl refl

pub apply_update-IsLog :
    (t : Task) (u : Update) (now : String) (work : Task)
    → apply_update t u now ≡ ok work
    → (u.state ≡ none) ⊎ IsLog (slot (base t u))
unfolding apply_update
apply_update-IsLog t u now work h =
    elim (Result-cases (apply_status t.status (base t u) u.state u.status_message now)) [
      | inl (e, p) ↦ cc (rw p at h)
      | inr (r, p) ↦ apply_status-IsLog t.status (base t u) u.state u.status_message now r p
    ]
