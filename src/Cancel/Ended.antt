-- ===== src/Cancel/Ended.antt =====
-- A cancellation that comes too late.
use a2akit.Prelude.{ℕ, String, ◌≡◌, refl, ap, ◌∙◌, true, Option, none, some, List}
use a2akit.Wire.{Task, TaskState, ArtifactWrite, is_terminal}
use a2akit.Errors.{ok}
use a2akit.Storage.{Storage, load_task, view}
use a2akit.Cancel.{cancel_loaded, cancel_task_in_storage}
use a2akit.Runtime.{World, ◌>>=◌, pause, pure, load, get_version}
use a2akit.Runtime.Settled.{IsSettled, HasState, pause-IsSettled}

loaded_state :
    (k : String) (s : TaskState) (st : Storage)
    → HasState st k s
    → (t : Task) × (load_task st k none true ≡ some t) × (t.status.state ≡ s)
unfolding load_task
loaded_state k s st (t, found, e) = (view none true t, rw (found, load_task) refl, e)

late :
    (k : String) (s : TaskState) (c : Option String) (reason : String) (ws : List ArtifactWrite)
    (v : Option ℕ) (found : Option Task) (w : World)
    → is_terminal s ≡ true
    → (t : Task) × (found ≡ some t) × (t.status.state ≡ s)
    → cancel_loaded k c reason ws v found w ≡ (ok tt, w)
unfolding cancel_loaded pure
late k s c reason ws v none w ended (t, f, e) = cc
late k s c reason ws v (some t') w ended (t, f, e) =
    rw (ap is_terminal (ap status_state (some_task f) ∙ e) ∙ ended) refl
  where
    status_state : Task → TaskState
    status_state x = x.status.state

    some_task : {a b : Task} → some a ≡ some b → a ≡ b
    some_task h = cc

-- A cancellation of a task that has ended, and that no one deletes or replaces meanwhile, does
-- nothing: it returns, after what other writers do before its two reads, and none of the artifacts
-- that it was given are written.
pub cancel_task_in_storage_ended :
    (k : String) (s : TaskState) (c : Option String) (reason : String) (ws : List ArtifactWrite)
    (w : World)
    → is_terminal s ≡ true
    → IsSettled k s w
    → cancel_task_in_storage k c reason ws w ≡ (ok tt, pause (pause w))
unfolding cancel_task_in_storage get_version load ◌>>=◌
cancel_task_in_storage_ended k s c reason ws w ended p =
    let q = pause-IsSettled k s ended (pause w) (pause-IsSettled k s ended w p) in
    late k s c reason ws _ _ (pause (pause w)) ended (loaded_state k s _ q.0)
