-- ===== src/Runtime/Quiet.antt =====
-- With no one else at work, a switch changes nothing.
use a2akit.Prelude.{◌≡◌, refl, [], ◌∷◌, List}
use a2akit.Runtime.{World, Turn, pause, run_turn}

pub pause_quiet : (w : World) → w.schedule ≡ [] → pause w ≡ w
unfolding pause run_turn
pause_quiet w h = go w.schedule h
  where
    go : (ts : List Turn) → ts ≡ [] → run_turn w ts ≡ w
    go [] e = refl
    go (t ∷ ts) e = cc
