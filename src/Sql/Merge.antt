-- ===== src/Sql/Merge.antt =====
-- The merge in Python computes the same task as the in-memory storage does.
use a2akit.Prelude.{
  ◌+◌, String, ◌≡◌, refl, ap, sym, ◌∙◌, inl, inr, Option, none, some, List, [], ◌∷◌, ◌++◌,
}
use mathlib.Core.List.{append-nil}
use a2akit.Dict
use a2akit.Dict.{Dict}
use a2akit.Wire.{Task, TaskState, Message, TaskStatus, MetaValue, Artifact, ArtifactWrite}
use a2akit.Errors.{Result, Result-cases, ok, err, ok-injective, ◌>>=◌}
use a2akit.Storage.{build_transition_record}
use a2akit.Storage.Artifacts.{apply_artifacts}
use a2akit.Storage.Update.{Update, apply_update, apply_status, append_transition}
use a2akit.Sql.{
  Row, Values, row_to_task, write_values, column, if_any, status_values, merged_values, all_values,
  merged_metadata,
}

abbrev status_of : Row → TaskStatus
status_of r = record {
  state = r.status_state;
  timestamp = r.status_timestamp;
  message = r.status_message;
}

-- What the status columns make of a task's status and metadata.
abbrev status_pair : Row → Option (Dict MetaValue) × Option TaskStatus → TaskStatus × Dict MetaValue
status_pair r sv = (column sv.1 (status_of r), column sv.0 r.metadata_json)

apply_status-status_values :
    (r : Row) (md : Option (Dict MetaValue)) (s : Option TaskState) (m : Option Message)
    (now : String)
    → apply_status (status_of r) (column md r.metadata_json) s m now
      ≡ (status_values r md s m now >>= λ sv. ok (status_pair r sv))
unfolding apply_status status_values
apply_status-status_values r md (some s) m now =
    elim (Result-cases
      (append_transition (column md r.metadata_json) (build_transition_record s now m))) [
        | inl (e, p) ↦ rw p refl
        | inr (log, p) ↦ rw p refl
      ]
apply_status-status_values r md none (some m) now = refl
apply_status-status_values r md none none now = refl

column-update : (d e : Dict MetaValue) → column (if_any e (Dict.update d e)) d ≡ Dict.update d e
column-update d [] = refl
column-update d (x ∷ e) = refl

column-append : (xs ys : List Message) → column (if_any ys (xs ++ ys)) xs ≡ xs ++ ys
column-append xs [] = sym (append-nil xs)
column-append xs (y ∷ ys) = refl

column-apply_artifacts :
    (xs : List Artifact) (ws : List ArtifactWrite)
    → column (if_any ws (apply_artifacts xs ws)) xs ≡ apply_artifacts xs ws
unfolding apply_artifacts
column-apply_artifacts xs [] = refl
column-apply_artifacts xs (w ∷ ws) = refl

-- What `apply_update` makes of a task once its status and metadata are known.
abbrev rest_of : Task → Update → TaskStatus × Dict MetaValue → Task
rest_of t u r = record t {
  status = r.0;
  history = t.history ++ u.messages;
  artifacts = apply_artifacts t.artifacts u.artifacts;
  metadata = r.1;
}

-- The columns that are set, written into the row that was selected, hold what `apply_update` of the
-- in-memory storage makes of its task; where that raises, the merge raises the same.
pub apply_update-merged_values :
    (r : Row) (u : Update) (now : String)
    → apply_update (row_to_task r) u now
      ≡ (merged_values r u now >>= λ v. ok (row_to_task (write_values v r)))
unfolding apply_update merged_values row_to_task write_values
apply_update-merged_values r u now =
    rw
      (ap (λ d. apply_status (status_of r) d u.state u.status_message now)
          (sym (column-update r.metadata_json u.task_metadata))
        ∙ apply_status-status_values r (merged_metadata r u) u.state u.status_message now)
      (go (status_values r (merged_metadata r u) u.state u.status_message now))
  where
    go :
        (a : Result (Option (Dict MetaValue) × Option TaskStatus))
        → ((a >>= λ sv. ok (status_pair r sv)) >>= λ p. ok (rest_of (row_to_task r) u p))
          ≡ ((a >>= λ sv. ok (all_values r u sv)) >>= λ v. ok (row_to_task (write_values v r)))
    go (err e) = refl
    go (ok sv) =
        rw (column-append r.history u.messages, column-apply_artifacts r.artifacts u.artifacts) refl

pub merged_values-version :
    (r : Row) (u : Update) (now : String) (v : Values)
    → merged_values r u now ≡ ok v
    → v.version ≡ r.version + 1
unfolding merged_values
merged_values-version r u now v h =
    elim (Result-cases (status_values r (merged_metadata r u) u.state u.status_message now)) [
      | inl (e, p) ↦ cc (rw p at h)
      | inr (sv, p) ↦ ap (λ x. x.version) (sym (ok-injective (rw p at h)))
    ]
