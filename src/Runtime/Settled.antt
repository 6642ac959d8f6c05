-- ===== src/Runtime/Settled.antt =====
-- A task in a terminal state stays in it, whatever the others do, short of its deletion.
use a2akit.Prelude.{
  String, ◌≡◌, ◌∙◌, refl, true, false, some, Option, List, [], ◌∷◌, arith, ◌==◌, inl, inr,
  Option-cases,
}
use a2akit.Dict
use a2akit.Dict.{get-set, get-pop}
use a2akit.Wire.{Task, TaskState, Message, is_terminal}
use a2akit.Storage.{Storage, create_task, find_idempotent, new_task}
use a2akit.Storage.Delete.{delete_task}
use a2akit.Storage.Update
use a2akit.Storage.Update.{Update}
use a2akit.Storage.Update.Integrity.{update_task-terminal}
use a2akit.Runtime.{
  World, Turn, Rival, writes, creates, deletes, act_rival, act_rivals, run_turn, pause, get_version,
  load, store, create,
}
use a2akit.Runtime.Steady.{Steady}

-- A rival spares the task if it does not delete it, and creates no task under its uuid. A schedule
-- spares it if the rivals do, and no uuid that the code itself draws is the task's.
abbrev pub Spares : String → Rival → Type 0
Spares k (writes j u) = Unit
Spares k (creates context_id m key fresh) = (fresh == k) ≡ false
Spares k (deletes j) = (j == k) ≡ false

abbrev pub AllSpare : String → List Rival → Type 0
AllSpare k [] = Unit
AllSpare k (r ∷ rs) = Spares k r × AllSpare k rs

abbrev pub ScheduleSpares : String → List Turn → Type 0
ScheduleSpares k [] = Unit
ScheduleSpares k (t ∷ ts) = AllSpare k t.rivals × ((t.uuid == k) ≡ false) × ScheduleSpares k ts

abbrev pub HasState : Storage → String → TaskState → Type 0
HasState st k s = (t : Task) × (Dict.get st.tasks k ≡ some t) × (t.status.state ≡ s)

abbrev pub IsSettled : String → TaskState → World → Type 0
IsSettled k s w = HasState w.storage k s × ScheduleSpares k w.schedule × ((w.uuid == k) ≡ false)

module _ (k : String) (s : TaskState) (ended : is_terminal s ≡ true) where
  update_task-HasState :
      (st : Storage) (j : String) (u : Update) (now : String)
      → HasState st k s
      → HasState (Update.update_task st j u now).1 k s
  update_task-HasState st j u now (t, found, e) =
      let (t', kept, same) = update_task-terminal st j u now k found (rw e ended) in
      (t', kept, same ∙ e)

  create_task-HasState :
      (st : Storage) (c : String) (m : Message) (key : Option String) (now fresh : String)
      → (fresh == k) ≡ false
      → HasState st k s
      → HasState (create_task st c m key now fresh).1 k s
  unfolding create_task new_task
  create_task-HasState st c m key now fresh other (t, found, e) =
      elim (Option-cases (find_idempotent st.tasks c key)) [
        | inl miss ↦ rw (miss, create_task) (t, get-set st.tasks fresh k _ ∙ rw other found, e)
        | inr (t', hit) ↦ rw (hit, create_task) (t, found, e)
      ]

  act_rival-HasState :
      (w : World) (r : Rival)
      → Spares k r
      → HasState w.storage k s
      → HasState (act_rival w r).storage k s
  unfolding act_rival delete_task
  act_rival-HasState w (writes j u) h p = update_task-HasState w.storage j u w.now p
  act_rival-HasState w (creates c m key fresh) h p =
      create_task-HasState w.storage c m key w.now fresh h p
  act_rival-HasState w (deletes j) h (t, found, e) =
      (t, ground (arith, get-pop w.storage.tasks j k), e)

  schedule-act_rival : (w : World) (r : Rival) → (act_rival w r).schedule ≡ w.schedule
  unfolding act_rival
  schedule-act_rival w (writes j u) = refl
  schedule-act_rival w (creates c m key fresh) = refl
  schedule-act_rival w (deletes j) = refl

  uuid-act_rival : (w : World) (r : Rival) → (act_rival w r).uuid ≡ w.uuid
  unfolding act_rival
  uuid-act_rival w (writes j u) = refl
  uuid-act_rival w (creates c m key fresh) = refl
  uuid-act_rival w (deletes j) = refl

  act_rivals-IsSettled :
      (w : World) (rs : List Rival)
      → AllSpare k rs
      → IsSettled k s w
      → IsSettled k s (act_rivals w rs)
  unfolding act_rivals
  act_rivals-IsSettled w [] h p = p
  act_rivals-IsSettled w (r ∷ rs) (h, hs) (p, later, fresh) =
      act_rivals-IsSettled (act_rival w r) rs hs (
        act_rival-HasState w r h p,
        rw (schedule-act_rival w r) later,
        rw (uuid-act_rival w r) fresh,
      )

  run_turn-IsSettled :
      (w : World) (ts : List Turn)
      → IsSettled k s w
      → ScheduleSpares k ts
      → IsSettled k s (run_turn w ts)
  unfolding run_turn
  run_turn-IsSettled w [] p h = p
  run_turn-IsSettled w (t ∷ ts) p h =
      act_rivals-IsSettled (record w { now = t.now; uuid = t.uuid; clock = t.clock; schedule = ts })
        t.rivals h.0 (p.0, h.2, h.1)

  pub pause-IsSettled : (w : World) → IsSettled k s w → IsSettled k s (pause w)
  unfolding pause
  pause-IsSettled w p = run_turn-IsSettled w w.schedule p p.1

  pub get_version-IsSettled : (j : String) → Steady (IsSettled k s) (get_version j)
  unfolding get_version
  get_version-IsSettled j = record { holds = λ w p. pause-IsSettled w p }

  pub load-IsSettled : (j : String) → Steady (IsSettled k s) (load j)
  unfolding load
  load-IsSettled j = record { holds = λ w p. pause-IsSettled w p }

  pub store-IsSettled : (j : String) (u : Update) → Steady (IsSettled k s) (store j u)
  unfolding store
  store-IsSettled j u = record {
    holds = λ w p.
        let q = pause-IsSettled w p in
        (update_task-HasState (pause w).storage j u (pause w).now q.0, q.1, q.2);
  }

  pub create-IsSettled :
      (c : String) (m : Message) (key : Option String) → Steady (IsSettled k s) (create c m key)
  unfolding create
  create-IsSettled c m key = record {
    holds = λ w p.
        let q = pause-IsSettled w p in
        (
          create_task-HasState (pause w).storage c m key (pause w).now (pause w).uuid q.2 q.0,
          q.1,
          q.2,
        );
  }
