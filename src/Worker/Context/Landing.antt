-- ===== src/Worker/Context/Landing.antt =====
-- `_versioned_update` of worker/base.py: when it returns, which storage its write found.
use a2akit.Prelude.{
  ℕ, zero, suc, ◌+◌, String, ◌≡◌, refl, ap, ◌∙◌, Bool, true, false, ◌&&◌, ◌||◌, Option, none, some,
  is_some, if◌then◌else◌, arith,
}
use a2akit.Wire.{Task, is_terminal}
use a2akit.Errors.{Error, Result, ok, err, task_terminal_state, is_concurrency}
use a2akit.Emitter
use a2akit.Emitter.Accepted.{Landed, update_task-found, update_task-refused, any_version}
use a2akit.Storage.Update.{Update}
use a2akit.Runtime.{
  World, Act, pause, load, get_version, pure, raise, try_except, handle, resume, ◌>>=◌,
}
use a2akit.Runtime.Outcomes.{Gives}
use a2akit.Worker.Context.{or_version, current_of, versioned_update, retry_versioned}

-- The others have run so many times since.
abbrev pub turns : ℕ → World → World
turns zero w = w
turns (suc n) w = turns n (pause w)

turns-turns : (n m : ℕ) (w : World) → turns m (turns n w) ≡ turns (n + m) w
turns-turns zero m w = let same : m ≡ 0 + m = omega arith in ap (λ i. turns i w) same
turns-turns (suc n) m w = turns-turns n m (pause w) ∙ ap (λ i. turns i w) (suc_add n m)
  where
    suc_add : (n m : ℕ) → suc (n + m) ≡ suc n + m
    suc_add n m = omega arith

-- A coroutine that only lets the others run.
record Waits {A : Type 0} (m : Act A) : Type 0 where
  waits : (w : World) → (n : ℕ) × ((m w).1 ≡ turns n w)

or_version-Waits : (k : String) (v : Option ℕ) → Waits (or_version k v)
unfolding or_version get_version pure
or_version-Waits k none = record { waits = λ w. (1, refl) }
or_version-Waits k (some zero) = record { waits = λ w. (1, refl) }
or_version-Waits k (some (suc v)) = record { waits = λ w. (0, refl) }

load-Waits : (k : String) → Waits (load k)
unfolding load
load-Waits k = record { waits = λ w. (1, refl) }

module _ (k : String) (u : Update) where
  -- A coroutine that returns only when the write has landed, on the world as it was after the others
  -- had run some number of times.
  pub record Lands {A : Type 0} (m : Act A) : Type 0 where
    pub lands :
        (w : World) (a : A)
        → (m w).0 ≡ ok a
        → (n : ℕ) × (l : Landed k u (m w).1) × (l.at ≡ turns (suc n) w)

  write-Lands : (v : Option ℕ) → Lands (Emitter.update_task k (record u { expected_version = v }))
  write-Lands v = record {
    lands = λ w x h.
        let (l, e) = update_task-found k (record u { expected_version = v }) w h in
        let (m, same) = any_version k u v _ l in (0, m, same ∙ e);
  }

  raise-Lands : {A : Type 0} (e : Error) → Lands (raise {A = A} e)
  unfolding raise
  raise-Lands e = record { lands = λ w a h. cc }

  if-Lands : {A : Type 0} (b : Bool) (m n : Act A) → Lands m → Lands n → Lands (if b then m else n)
  if-Lands true m n lm ln = lm
  if-Lands false m n lm ln = ln

  -- What was waited for first is counted in.
  later :
      (n : ℕ) (w w' v : World)
      → w' ≡ turns n w
      → (m : ℕ) × (l : Landed k u v) × (l.at ≡ turns (suc m) w')
      → (m : ℕ) × (l : Landed k u v) × (l.at ≡ turns (suc m) w)
  later n w w' v p (m, l, e) =
      let together : n + suc m ≡ suc (n + m) = omega arith in
      (n + m, l, e ∙ ap (turns (suc m)) p ∙ turns-turns n (suc m) w ∙ ap (λ i. turns i w) together)

  bind-Lands :
      {A B : Type 0} (m : Act A) (f : A → Act B)
      → Waits m
      → ((a : A) → Lands (f a))
      → Lands (m >>= f)
  unfolding ◌>>=◌
  bind-Lands {A} {B} m f waited g = record {
    lands = λ w b h. go w (m w).0 (m w).1 b (waited.waits w) h;
  }
    where
      go :
          (w : World) (r : Result A) (w' : World) (b : B)
          → (n : ℕ) × (w' ≡ turns n w)
          → (resume r f w').0 ≡ ok b
          → (n : ℕ) × (l : Landed k u (resume r f w').1) × (l.at ≡ turns (suc n) w)
      go w (ok a) w' b (n, p) h = later n w w' _ p ((g a).lands w' b h)
      go w (err e) w' b p h = cc

  retry-Lands : (e : Error) (t : Option Task) → Lands (retry_versioned k u e t)
  unfolding retry_versioned
  retry-Lands e none = raise-Lands task_terminal_state
  retry-Lands e (some t) =
      if-Lands (is_terminal t.status.state && (is_some u.state || is_some u.status_message)) _ _
        (raise-Lands task_terminal_state)
        (bind-Lands _ _ (or_version-Waits k (current_of e)) write-Lands)

  on_conflict :
      (e : Error)
      → Lands
          (if is_concurrency e then (do found ← load k; retry_versioned k u e found) else raise e)
  on_conflict e =
      if-Lands (is_concurrency e) _ _ (bind-Lands _ _ (load-Waits k) (retry-Lands e))
        (raise-Lands e)

  pub versioned_update-Lands : (v : Option ℕ) → Lands (versioned_update k v u)
  unfolding versioned_update try_except
  versioned_update-Lands v = record {
    lands = λ w x h.
        let first = Emitter.update_task k (record u { expected_version = v }) in
        go w (first w).0 (first w).1 x ((write-Lands v).lands w)
          (λ e p. update_task-refused k (record u { expected_version = v }) w p) h;
  }
    where
      on_error : Error → Act ℕ
      on_error e =
          if is_concurrency e then (do found ← load k; retry_versioned k u e found) else raise e

      go :
          (w : World) (r : Result ℕ) (w' : World) (x : ℕ)
          → ((a : ℕ) → r ≡ ok a → (n : ℕ) × (l : Landed k u w') × (l.at ≡ turns (suc n) w))
          → ((e : Error) → r ≡ err e → w' ≡ pause w)
          → (handle r on_error w').0 ≡ ok x
          → (n : ℕ) × (l : Landed k u (handle r on_error w').1) × (l.at ≡ turns (suc n) w)
      go w (ok a) w' x landed kept h = landed a refl
      go w (err e) w' x landed kept h = later 1 w w' _ (kept e refl) ((on_conflict e).lands w' x h)

  pub versioned_update-Landed : (v : Option ℕ) → Gives (Landed k u) (versioned_update k v u)
  versioned_update-Landed v = record { gives = λ w x h. ((versioned_update-Lands v).lands w x h).1 }
