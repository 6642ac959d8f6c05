-- ===== src/Runtime/Jobs.antt =====
-- The others start none of this process's background jobs.
use a2akit.Prelude.{◌≡◌, refl, List, [], ◌∷◌}
use a2akit.Runtime.{
  World, Turn, Rival, writes, creates, deletes, act_rival, act_rivals, run_turn, pause,
}

background-act_rivals : (w : World) (rs : List Rival) → (act_rivals w rs).background ≡ w.background
unfolding act_rivals act_rival
background-act_rivals w [] = refl
background-act_rivals w (writes j u ∷ rs) = background-act_rivals (act_rival w (writes j u)) rs
background-act_rivals w (creates c m key fresh ∷ rs) =
    background-act_rivals (act_rival w (creates c m key fresh)) rs
background-act_rivals w (deletes j ∷ rs) = background-act_rivals (act_rival w (deletes j)) rs

background-run_turn : (w : World) (ts : List Turn) → (run_turn w ts).background ≡ w.background
unfolding run_turn
background-run_turn w [] = refl
background-run_turn w (t ∷ ts) =
    background-act_rivals (record w { now = t.now; uuid = t.uuid; clock = t.clock; schedule = ts })
      t.rivals

pub background-pause : (w : World) → (pause w).background ≡ w.background
unfolding pause
background-pause w = background-run_turn w w.schedule
