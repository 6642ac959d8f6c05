-- ===== src/Storage/History.antt =====
-- `_trim_history`: the last messages, and the whole history where no length is asked for.
use a2akit.Prelude.{
  ℕ, zero, suc, ◌-◌, ◌≡◌, some, arith, List, ◌++◌, length, length-drop, take, append-take-drop, pos,
}
use mathlib.Core.List.{append-nil}
use Prim.Native.Nat.{min}
use a2akit.Wire.{Message}
use a2akit.Storage.{trim_history}

-- For a length n the result is the end of the history, n messages long, or all of them where there
-- are fewer.
pub trim_history-suffix :
    (history : List Message) (n : ℕ)
    → ((before : List Message) × (before ++ trim_history history (some (pos n)) ≡ history))
      × (length (trim_history history (some (pos n))) ≡ min n (length history))
unfolding trim_history
trim_history-suffix history zero = ((history, append-nil history), omega arith)
trim_history-suffix history (suc n) = (
  (take (length history - suc n) history, append-take-drop (length history - suc n) history),
  omega (arith, length-drop (length history - suc n) history),
)
