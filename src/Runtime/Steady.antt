-- ===== src/Runtime/Steady.antt =====
-- Invariants of coroutines: what holds before a coroutine, and however the others interleave, holds
-- after it, whether it returns or raises. One rule for each way to build a coroutine.
use a2akit.Prelude.{Bool, true, false, if◌then◌else◌}
use a2akit.Errors.{Error, Result, ok, err}
use a2akit.Runtime.{Act, World, pure, raise, try_except, handle, resume, ◌>>=◌}

pub record Steady {A : Type 0} (P : World → Type 0) (m : Act A) : Type 0 where
  pub holds : (w : World) → P w → P (m w).1

module _ {A B : Type 0} {P : World → Type 0} where
  resume-Steady :
      (r : Result A) (f : A → Act B) (w : World)
      → ((a : A) → Steady P (f a))
      → P w
      → P (resume r f w).1
  resume-Steady (ok a) f w s p = (s a).holds w p
  resume-Steady (err e) f w s p = p

  pub bind-Steady :
      (m : Act A) (f : A → Act B) → Steady P m → ((a : A) → Steady P (f a)) → Steady P (m >>= f)
  unfolding ◌>>=◌
  bind-Steady m f sm sf = record {
    holds = λ w p. resume-Steady (m w).0 f (m w).1 sf (sm.holds w p);
  }

module _ {A : Type 0} {P : World → Type 0} where
  pub pure-Steady : (a : A) → Steady P (pure a)
  unfolding pure
  pure-Steady a = record { holds = λ w p. p }

  pub raise-Steady : (e : Error) → Steady P (raise {A = A} e)
  unfolding raise
  raise-Steady e = record { holds = λ w p. p }

  pub if-Steady : (b : Bool) (m n : Act A) → Steady P m → Steady P n → Steady P (if b then m else n)
  if-Steady true m n sm sn = sm
  if-Steady false m n sm sn = sn

  handle-Steady :
      (r : Result A) (h : Error → Act A) (w : World)
      → ((e : Error) → Steady P (h e))
      → P w
      → P (handle r h w).1
  handle-Steady (ok a) h w s p = p
  handle-Steady (err e) h w s p = (s e).holds w p

  pub try-Steady :
      (m : Act A) (h : Error → Act A)
      → Steady P m
      → ((e : Error) → Steady P (h e))
      → Steady P (try_except m h)
  unfolding try_except
  try-Steady m h sm sh = record { holds = λ w p. handle-Steady (m w).0 h (m w).1 sh (sm.holds w p) }

pub ruleset steady_rules = (bind-Steady, pure-Steady, raise-Steady, if-Steady, try-Steady)
